-- ===== src/Growthbook/Feature/Merge.antt =====
-- How `UpdateFeature` of internal/growthbook/feature.go lays a specification over a document.
use k8sgrowthbook_controller.Prelude.{not, Option, none, some, List, [], ◌∷◌}
use k8sgrowthbook_controller.Prelude.{is_empty, Slice, elems, append}
use k8sgrowthbook_controller.Prelude.{if◌then◌else◌}
use k8sgrowthbook_controller.Prelude.Dict.{Dict, lookup, insert, retain}
use k8sgrowthbook_controller.Prelude.Options.{is_some}
use k8sgrowthbook_controller.Documents.Feature.{FeatureRule, Feature, EnvironmentSetting}

-- The rules with an ID: GrowthBook gives its own rules one, and the controller none.
unfoldable pub identified : List FeatureRule → List FeatureRule
identified [] = []
identified (rule ∷ rules) =
    let rest = identified rules in if not (is_empty rule.id) then rule ∷ rest else rest

unfoldable pub merge_rules : Slice FeatureRule → Slice FeatureRule → Slice FeatureRule
unfolding identified
merge_rules existing spec = append (append none (identified (elems existing))) (elems spec)

-- What an environment's settings become, from those it has, if any.
unfoldable pub merge_setting : Option EnvironmentSetting → EnvironmentSetting → EnvironmentSetting
unfolding merge_rules
merge_setting none settings = record { enabled = settings.enabled; rules = settings.rules }
merge_setting (some existing) settings = record existing {
  enabled = settings.enabled;
  rules = merge_rules existing.rules settings.rules;
}

-- The loop over the settings of the specification.
unfoldable pub set_environments :
    Dict EnvironmentSetting → Dict EnvironmentSetting → Dict EnvironmentSetting
unfolding merge_setting
set_environments [] existing = existing
set_environments ((env, settings) ∷ spec) existing =
    set_environments spec (insert env (merge_setting (lookup env existing) settings) existing)

-- Both loops: the second deletes the environments that the specification does not name.
unfoldable pub merge_environments :
    Dict EnvironmentSetting → Dict EnvironmentSetting → Dict EnvironmentSetting
unfolding set_environments
merge_environments existing spec =
    retain (λ env. is_some (lookup env spec)) (set_environments spec existing)

-- What a nil map reads as.
abbrev pub entries {ℓ} : {V : Type ℓ} → Option (Dict V) → Dict V
entries none = []
entries (some m) = m

-- The fields of an existing document that the controller sets.
unfoldable pub overlay : Feature → Feature → Feature
unfolding merge_environments
overlay existing feature = record existing {
  id = feature.id;
  description = feature.description;
  default_value = feature.default_value;
  value_type = feature.value_type;
  tags = feature.tags;
  environments = feature.environments;
  environment_settings = some (
      merge_environments (entries existing.environment_settings)
        (entries feature.environment_settings));
}
