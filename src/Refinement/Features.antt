-- ===== src/Refinement/Features.antt =====
-- `UpdateFeature` on a shelf of features, for a feature converted from its specification.
use mathlib.Core.Path.{subst}
use mathlib.Core.Option.{some-injective}
use k8sgrowthbook_controller.Prelude.{◌≡◌, refl, sym, ap, ◌∙◌, Option, none, some, GoString, Bytes}
use k8sgrowthbook_controller.Prelude.{◌==◌, text_eq, if◌then◌else◌, true, inl, inr}
use k8sgrowthbook_controller.Prelude.Options.{Option-cases}
use k8sgrowthbook_controller.Api
use k8sgrowthbook_controller.Api.Meta.{Time}
use k8sgrowthbook_controller.Documents.Feature.{Feature}
use k8sgrowthbook_controller.Effects.{
  Error, Result, ok, err, Database, Prog, ret, call, feature_document, now,
}
use k8sgrowthbook_controller.Effects.{decode_feature, from_result, ◌>>=◌, attempt, marshal}
use k8sgrowthbook_controller.Effects.{mongo_find_one}
use k8sgrowthbook_controller.Effects.Runs.{Handler, run, run-call}
use k8sgrowthbook_controller.Storage.{insert_one, update_one, by_id, set_document, find_one}
use k8sgrowthbook_controller.Growthbook.Feature.{features, update_feature, update_found, overlay}
use k8sgrowthbook_controller.Growthbook.Feature.{entries, ParseFloat, from_v1beta1}
use k8sgrowthbook_controller.Updates.Features.{IsOverFeature, overlay-IsOverFeature, stamped}
use k8sgrowthbook_controller.Updates.Features.{stamped-IsOverFeature}
use k8sgrowthbook_controller.Merging.Conversion.{IsBuilt, from_v1beta1-IsBuilt}
use k8sgrowthbook_controller.Refinement.Shelf.{Lands}
use k8sgrowthbook_controller.Refinement.FeatureShelf.{IsFeatureShelf, Alike, Alike-sym}
use k8sgrowthbook_controller.Refinement.FeatureShelf.{Alike-trans}
use k8sgrowthbook_controller.Refinement.Landing.{Lands-done, Lands-from, Lands-if, run_known}
use k8sgrowthbook_controller.Refinement.Landing.{unchanged_bytes, same-Puts}

abbrev pub created_feature : Feature → Time → Feature
created_feature f t = record f { date_created = t; date_updated = t }

-- What may become of a feature, as it is decoded later.
abbrev pub AfterFeature : Feature → Option Feature → Feature → Type 0
AfterFeature f none v = (t : Time) × Alike (created_feature f t) v
AfterFeature f (some e) v = (w : Feature) × IsOverFeature f e w × Alike w v

module _ {S : Type 0} (db : Database) (h : Handler S) (no_documents : Error)
    (read : Bytes → Option Feature) (stored : GoString → S → Option Feature)
    (laws : IsFeatureShelf h (features db) no_documents read stored) (parse_float : ParseFloat)
    (start f : Feature) (feature : Api.Feature.GrowthbookFeature)
    (converted : from_v1beta1 parse_float start feature ≡ some f) where
  built : IsBuilt (entries f.environment_settings)
  built = from_v1beta1-IsBuilt parse_float start f feature converted

  -- `UpdateFeature` from its last step to its first.
  abbrev writing : Result Error Bytes → Prog Error Unit
  writing r = from_result r >>= λ stamped_bson.
      update_one (features db) (by_id f.id) (set_document stamped_bson)

  abbrev stamping : Feature → Prog Error Unit
  stamping e = call now λ t. call (marshal (feature_document (stamped e f t))) from_result >>= λ b.
      update_one (features db) (by_id f.id) (set_document b)

  abbrev compared : Feature → Bytes → Bytes → Prog Error Unit
  compared e before after = if before == after then ret tt else stamping e

  abbrev second : Feature → Bytes → Result Error Bytes → Prog Error Unit
  second e before r = from_result r >>= λ after. compared e before after

  abbrev first : Feature → Result Error Bytes → Prog Error Unit
  first e r = from_result r >>= λ before.
      call (marshal (feature_document (overlay e f))) from_result >>= λ after.
      compared e before after

  abbrev decoded : Result Error Feature → Prog Error Unit
  decoded r = from_result r >>= λ e. call (marshal (feature_document e)) from_result >>= λ before.
      call (marshal (feature_document (overlay e f))) from_result >>= λ after.
      compared e before after

  abbrev sought : Result Error Bytes → Prog Error Unit
  sought r = attempt (from_result r) (update_found (features db) (by_id f.id) f)

  creating-Lands :
      (s : S)
      → stored f.id s ≡ none
      → Lands stored f.id (AfterFeature f none) s (run h (update_feature f db) s)
  unfolding update_feature update_found attempt find_one from_result insert_one
  creating-Lands s q =
      let t = (h now s).0 in
      let s1 = (h now s).1 in
      let (replied, (v, like, puts)) =
        laws.inserts (created_feature f t) s1 (laws.ticks f.id s ∙ q) in
      subst (Lands stored f.id (AfterFeature f none) s)
        (sym (
          run-call h (mongo_find_one (features db) (by_id f.id)) sought s s (err no_documents)
            (laws.misses f.id s q)))
        (Lands-from f.id (AfterFeature f none) s s1 _ (λ j. laws.ticks j s)
          (Lands-done h stored f.id (AfterFeature f none) s1 _ v _ 1 replied (t, like) puts))

  stamping-Lands :
      (e : Feature) (s : S)
      → stored f.id s ≡ some e
      → Lands stored f.id (AfterFeature f (some e)) s (run h (stamping e) s)
  unfolding ◌>>=◌ from_result update_one overlay
  stamping-Lands e s q =
      let t = (h now s).0 in
      let s1 = (h now s).1 in
      let d = feature_document (stamped e f t) in
      let s2 = (h (marshal d) s1).1 in
      let stay : (j : GoString) → stored j s2 ≡ stored j s =
        λ j. laws.marshalled j (stamped e f t) s1 ∙ laws.ticks j s in
      let (b, v, replied, reads, like) = laws.marshals (stamped e f t) s1 in
      let own : v.id ≡ f.id = ap (λ (a : Feature). a.id) (sym (like.0)) in
      let (confirmed, puts) = laws.updates f.id b v e s2 reads own (stay f.id ∙ q) in
      subst (Lands stored f.id (AfterFeature f (some e)) s)
        (sym (run_known h (marshal d) writing s1 (ok b) replied))
        (Lands-from f.id (AfterFeature f (some e)) s s2 _ stay (
          Lands-done h stored f.id (AfterFeature f (some e)) s2 _ v _ 1 confirmed
            (stamped e f t, stamped-IsOverFeature e f t built.nodup, like) puts))

  -- Equal bytes are read as one feature.
  same_read :
      (b c : Bytes) (v w : Feature) → read b ≡ some v → read c ≡ some w → (b == c) ≡ true → v ≡ w
  same_read b c v w p q e = some-injective v w (sym p ∙ ap read (unchanged_bytes b c e) ∙ q)

  compared-Lands :
      (e v w : Feature) (before after : Bytes) (s : S)
      → stored f.id s ≡ some e
      → read before ≡ some v
      → Alike e v
      → read after ≡ some w
      → Alike (overlay e f) w
      → Lands stored f.id (AfterFeature f (some e)) s (run h (compared e before after) s)
  compared-Lands e v w before after s q p k r l =
      Lands-if h stored f.id (AfterFeature f (some e)) s (before == after) (ret tt) (stamping e)
        (λ b. record {
          ends = refl;
          outcome = e;
          holds = (
            overlay e f,
            overlay-IsOverFeature e f built.nodup,
            Alike-trans (overlay e f) v e
                (subst (Alike (overlay e f)) (sym (same_read before after v w p r b)) l)
                (Alike-sym e v k),
          );
          puts = same-Puts stored f.id e e s q refl;
        })
        (λ _. stamping-Lands e s q)

  existing-Lands :
      (e : Feature) (s : S)
      → stored f.id s ≡ some e
      → Lands stored f.id (AfterFeature f (some e)) s (run h (update_feature f db) s)
  unfolding update_feature update_found attempt find_one from_result ◌>>=◌
  existing-Lands e s q =
      let (b, found, reads) = laws.finds f.id e s q in
      let (before, v, replied, reads_v, like_v) = laws.marshals e s in
      let s1 = (h (marshal (feature_document e)) s).1 in
      let (after, w, replied_again, reads_w, like_w) = laws.marshals (overlay e f) s1 in
      let s2 = (h (marshal (feature_document (overlay e f))) s1).1 in
      let stay : (j : GoString) → stored j s2 ≡ stored j s =
        λ j. laws.marshalled j (overlay e f) s1 ∙ laws.marshalled j e s in
      subst (Lands stored f.id (AfterFeature f (some e)) s)
        (sym (
          run-call h (mongo_find_one (features db) (by_id f.id)) sought s s (ok b) found
          ∙ run-call h (decode_feature b) decoded s s (ok e) (laws.decodes b e s reads)
          ∙ run_known h (marshal (feature_document e)) (first e) s (ok before) replied
          ∙ run_known h (marshal (feature_document (overlay e f))) (second e before) s1 (ok after)
              replied_again))
        (Lands-from f.id (AfterFeature f (some e)) s s2 _ stay
          (compared-Lands e v w before after s2 (stay f.id ∙ q) reads_v like_v reads_w like_w))

  -- On a shelf of features `UpdateFeature` of a converted feature succeeds. It puts in, under the
  -- feature's ID, one like the one given with one date if there was none. Otherwise it puts in one
  -- that is like one that has the ID, description, default value, value type, tags and environments
  -- given, the owner, organization, creation date, archive flag and revision of the one there was,
  -- and each environment setting given merged over the one there was and no other. No other feature
  -- changes. Features are alike if they differ at most in the order of the environments, and in
  -- slices that BSON leaves out if they are empty.
  pub update_feature_refines :
      (s : S) → Lands stored f.id (AfterFeature f (stored f.id s)) s (run h (update_feature f db) s)
  update_feature_refines s = elim (Option-cases (stored f.id s)) [
    | inl q ↦ rw q (creating-Lands s q)
    | inr (e, q) ↦ rw q (existing-Lands e s q)
  ]
