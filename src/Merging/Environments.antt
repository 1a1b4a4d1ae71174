-- ===== src/Merging/Environments.antt =====
-- The environment settings that `UpdateFeature` writes.
use k8sgrowthbook_controller.Prelude.{◌≡◌, sym, ap, ◌∙◌, arith, [], ◌∷◌, none, some}
use k8sgrowthbook_controller.Prelude.{Option, Slice, elems, append, GoString, text_eq}
use k8sgrowthbook_controller.Prelude.Dict.{Dict, lookup, insert, NodupKeys, lookup-insert}
use k8sgrowthbook_controller.Prelude.Dict.{lookup-retain, lookup-cons, lookup-nil}
use k8sgrowthbook_controller.Documents.Feature.{EnvironmentSetting, FeatureRule}
use k8sgrowthbook_controller.Growthbook.Feature.{merge_rules, merge_setting, set_environments}
use k8sgrowthbook_controller.Growthbook.Feature.{merge_environments}
use k8sgrowthbook_controller.Merging.Rules.{
  Unidentified, merge_rules_idem, identified_of_Unidentified,
}

-- What an environment has after the first loop.
abbrev set_over : Option EnvironmentSetting → Option EnvironmentSetting → Option EnvironmentSetting
set_over old none = old
set_over old (some s) = some (merge_setting old s)

-- What it has in the end: nothing unless the specification names it.
abbrev pub merged_over :
    Option EnvironmentSetting → Option EnvironmentSetting → Option EnvironmentSetting
merged_over old none = none
merged_over old (some s) = some (merge_setting old s)

lookup-set_environments :
    (k : GoString) (spec existing : Dict EnvironmentSetting)
    → NodupKeys spec
    → lookup k (set_environments spec existing) ≡ set_over (lookup k existing) (lookup k spec)
unfolding set_environments
lookup-set_environments k [] existing h = rw lookup-nil
lookup-set_environments k ((env, s) ∷ spec) existing (fresh, h) =
    lookup-set_environments k spec (insert env (merge_setting (lookup env existing) s) existing) h
    ∙ rw (lookup-insert, lookup-cons) (ground arith)

-- The merged settings, environment by environment, in whatever order the maps are gone through:
-- each environment of the specification is merged with the one that the document has, and every
-- other environment is gone.
pub lookup-merge_environments :
    (k : GoString) (existing spec : Dict EnvironmentSetting)
    → NodupKeys spec
    → lookup k (merge_environments existing spec) ≡ merged_over (lookup k existing) (lookup k spec)
unfolding merge_environments
lookup-merge_environments k existing spec h =
    rw (lookup-retain, lookup-set_environments k spec existing h) (ground arith)

-- Settings as the specification gives them: no rule has an ID, and no rules means nil.
pub record IsSpecified (s : EnvironmentSetting) : Type 0 where
  pub unidentified : Unidentified (elems s.rules)
  pub appended : s.rules ≡ append none (elems s.rules)

abbrev with_rules : EnvironmentSetting → Slice FeatureRule → EnvironmentSetting
with_rules s rules = record { enabled = s.enabled; rules = rules }

merge_rules_self : (s : EnvironmentSetting) → IsSpecified s → merge_rules s.rules s.rules ≡ s.rules
unfolding merge_rules
merge_rules_self s h =
    rw (identified_of_Unidentified (elems s.rules) h.unidentified) (sym h.appended)

pub merge_setting_idem :
    (old : Option EnvironmentSetting) (s : EnvironmentSetting)
    → IsSpecified s
    → merge_setting (some (merge_setting old s)) s ≡ merge_setting old s
unfolding merge_setting
merge_setting_idem none s h = ap (with_rules s) (merge_rules_self s h)
merge_setting_idem (some old) s h =
    ap (with_rules s) (merge_rules_idem old.rules s.rules h.unidentified)

abbrev pub AllSpecified : Dict EnvironmentSetting → Type 0
AllSpecified m = (k : GoString) (s : EnvironmentSetting) → lookup k m ≡ some s → IsSpecified s
