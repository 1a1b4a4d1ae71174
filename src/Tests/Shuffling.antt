-- ===== src/Tests/Shuffling.antt =====
-- A store of features whose BSON has the environments in another order at every second marshalling.
use mathlib.Core.Option
use mathlib.Core.Option.{some-injective}
use k8sgrowthbook_controller.Prelude.{Bool, true, false, not, ◌≡◌, refl, ap, [], ◌∷◌}
use k8sgrowthbook_controller.Prelude.{Option, none, some, GoString, text_eq}
use k8sgrowthbook_controller.Prelude.Dict.{Dict, lookup, insert, lookup-insert}
use k8sgrowthbook_controller.Documents.Feature.{Feature, EnvironmentSetting}
use k8sgrowthbook_controller.Effects.{ok, marshal, feature_document, Collection}
use k8sgrowthbook_controller.Effects.Runs.{Handler}
use k8sgrowthbook_controller.Growthbook.Feature.{entries}
use k8sgrowthbook_controller.Refinement.FeatureShelf.{IsFeatureShelf, Alike}
use k8sgrowthbook_controller.Tests.Encodings.{feature_codec}
use k8sgrowthbook_controller.Tests.Memory.{
  feature_memory, feature_memory-IsFeatureShelf, read_back, decode-encode, encode_by, refused,
}

-- The entries from the last to the first.
unfoldable pub shuffled : Dict EnvironmentSetting → Dict EnvironmentSetting
shuffled [] = []
shuffled ((k, v) ∷ m) = insert k v (shuffled m)

lookup-shuffled : (j : GoString) (m : Dict EnvironmentSetting) → lookup j (shuffled m) ≡ lookup j m
unfolding shuffled lookup
lookup-shuffled j [] = refl
lookup-shuffled j ((k, v) ∷ m) = rw (lookup-insert j k v (shuffled m), lookup-shuffled j m) refl

abbrev turned : Bool → Feature → Feature
turned true f = record f { environment_settings = Option.map shuffled f.environment_settings }
turned false f = f

lookup-turned :
    (j : GoString) (o : Option (Dict EnvironmentSetting))
    → lookup j (entries o) ≡ lookup j (entries (Option.map shuffled o))
lookup-turned j none = refl
lookup-turned j (some m) = rw (lookup-shuffled j m) refl

turned-Alike : (b : Bool) (f : Feature) → Alike f (turned b f)
turned-Alike true f =
    (refl, λ environment. ap (Option.map _) (lookup-turned environment f.environment_settings))
turned-Alike false f = (refl, λ environment. refl)

abbrev pub Shuffled : Type 0
Shuffled = Dict Feature × Bool

abbrev pub shuffling : Handler Shuffled
shuffling (marshal (feature_document f)) (m, b) =
    (ok (encode_by feature_codec (turned b f)), (m, not b))
shuffling c (m, b) = let (r, n) = feature_memory c m in (r, (n, b))

abbrev pub shuffled_of : GoString → Shuffled → Option Feature
shuffled_of id (m, b) = lookup id m

pub shuffling-IsFeatureShelf :
    (col : Collection) → IsFeatureShelf shuffling col refused read_back shuffled_of
shuffling-IsFeatureShelf col =
    let base = feature_memory-IsFeatureShelf col in
    record {
      misses = λ id s q. ap (λ p. (p.0, (p.1, s.1))) (base.misses id s.0 q);
      finds = λ id e s q.
          let (b, found, reads) = base.finds id e s.0 q in
          (b, ap (λ p. (p.0, (p.1, s.1))) found, reads);
      decodes = λ b a s q. ap (λ p. (p.0, (p.1, s.1))) (base.decodes b a s.0 q);
      marshals = λ a s. (
        encode_by feature_codec (turned s.1 a),
        turned s.1 a,
        refl,
        ap some (decode-encode feature_codec (turned s.1 a)),
        turned-Alike s.1 a,
      );
      marshalled = λ id a s. refl;
      inserts = λ a s q. base.inserts a s.0 q;
      updates = λ id b v e s q own p. base.updates id b v e s.0 q own p;
      ticks = λ id s. refl;
      erasable = record {
        deletes = λ id s. base.erasable.deletes id s.0;
        deleted = λ id j s. base.erasable.deleted id j s.0;
      };
    }
