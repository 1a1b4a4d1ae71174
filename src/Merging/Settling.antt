-- ===== src/Merging/Settling.antt =====
-- What becomes of a document when the same specification is laid over it once more.
use k8sgrowthbook_controller.Prelude.{Bool, ◌≡◌, refl, ap, ◌∙◌, arith, [], ◌∷◌}
use k8sgrowthbook_controller.Prelude.{Option, none, some, GoString, text_eq}
use k8sgrowthbook_controller.Prelude.Dict.{Dict, lookup, insert, retain, NodupKeys}
use k8sgrowthbook_controller.Api
use k8sgrowthbook_controller.Api.Meta.{Time}
use k8sgrowthbook_controller.Documents.Feature.{Feature, EnvironmentSetting}
use k8sgrowthbook_controller.Growthbook.Feature.{ParseFloat, from_v1beta1, overlay, entries}
use k8sgrowthbook_controller.Growthbook.Feature.{merge_setting, set_environments}
use k8sgrowthbook_controller.Growthbook.Feature.{merge_environments}
use k8sgrowthbook_controller.Merging.Environments.{AllSpecified, merge_setting_idem, merged_over}
use k8sgrowthbook_controller.Merging.Environments.{lookup-merge_environments}
use k8sgrowthbook_controller.Merging.Conversion.{IsBuilt, from_v1beta1-IsBuilt}

module _ {ℓ} {V : Type ℓ} where
  insert-same : (k : GoString) (v : V) (m : Dict V) → lookup k m ≡ some v → insert k v m ≡ m
  unfolding lookup insert
  insert-same k v [] h = cc
  insert-same k v ((j, w) ∷ m) h = ground (arith, insert-same k v m)

  retain-again : (keep : GoString → Bool) (m : Dict V) → retain keep (retain keep m) ≡ retain keep m
  unfolding retain
  retain-again keep [] = refl
  retain-again keep ((j, v) ∷ m) = ground (arith, retain-again keep m)

  lookup-head : (k : GoString) (v : V) (m : Dict V) → lookup k ((k, v) ∷ m) ≡ some v
  unfolding lookup
  lookup-head k v m = ground arith

  lookup-later :
      (j k : GoString) (v w : V) (m : Dict V)
      → lookup k m ≡ none
      → lookup j m ≡ some w
      → lookup j ((k, v) ∷ m) ≡ some w
  unfolding lookup
  lookup-later j k v w m fresh h = ground arith

-- Each setting to be merged is there as its own outcome.
abbrev AreMerged : Dict EnvironmentSetting → Dict EnvironmentSetting → Type 0
AreMerged spec m =
    (k : GoString) (s : EnvironmentSetting)
    → lookup k spec ≡ some s
    → (v : EnvironmentSetting) × (lookup k m ≡ some v) × (merge_setting (some v) s ≡ v)

set_environments_fixed :
    (spec m : Dict EnvironmentSetting)
    → NodupKeys spec
    → AreMerged spec m
    → set_environments spec m ≡ m
unfolding set_environments
set_environments_fixed [] m h f = refl
set_environments_fixed ((k, s) ∷ spec) m (fresh, h) f =
    let (v, there, fixed) = f k s (lookup-head k s spec) in
    let same : insert k (merge_setting (lookup k m) s) m ≡ m =
      rw (there, fixed) (insert-same k v m there) in
    ap (set_environments spec) same
    ∙ set_environments_fixed spec m h (λ j t e. f j t (lookup-later j k s t spec fresh e))

module _ (spec : Dict EnvironmentSetting) (h : NodupKeys spec) (a : AllSpecified spec) where
  merge_environments_again :
      (existing : Dict EnvironmentSetting)
      → merge_environments (merge_environments existing spec) spec
        ≡ merge_environments existing spec
  unfolding merge_environments
  merge_environments_again existing =
      ap (retain _) (
        set_environments_fixed spec (merge_environments existing spec) h λ k s e. (
          merge_setting (lookup k existing) s,
          lookup-merge_environments k existing spec h ∙ ap (merged_over (lookup k existing)) e,
          merge_setting_idem (lookup k existing) s (a k s e),
        ))
      ∙ retain-again _ (set_environments spec existing)

-- A feature with other settings and another date of its update.
abbrev with_settings : Feature → Option (Dict EnvironmentSetting) → Feature
with_settings f m = record f { environment_settings = m }

abbrev dated : Feature → Time → Feature
dated f t = record f { date_updated = t }

module _ (g : Feature) (built : IsBuilt (entries g.environment_settings)) where
  -- Laying the same specification over an outcome of it changes nothing, whatever the date.
  overlay-dated :
      (existing : Feature) (t : Time)
      → overlay (dated (overlay existing g) t) g ≡ dated (overlay existing g) t
  unfolding overlay
  overlay-dated existing t =
      ap (λ m. with_settings (dated (overlay existing g) t) (some m))
        (merge_environments_again (entries g.environment_settings) built.nodup built.specified
          (entries existing.environment_settings))

-- Once a converted feature has been laid over a document, laying it over the outcome changes
-- nothing, the order of the environments included.
pub overlay_settles :
    (parse_float : ParseFloat) (f g existing : Feature) (feature : Api.Feature.GrowthbookFeature)
    → from_v1beta1 parse_float f feature ≡ some g
    → overlay (overlay existing g) g ≡ overlay existing g
unfolding overlay
overlay_settles parse_float f g existing feature h =
    overlay-dated g (from_v1beta1-IsBuilt parse_float f g feature h) existing existing.date_updated
