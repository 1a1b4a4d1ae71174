-- ===== src/Growthbook/Feature/Convert.antt =====
-- `Feature.FromV1beta1` of internal/growthbook/feature.go: the specification as a document. It
-- reads `*rule.MinBucketVersion` where only `rule.BucketVersion` was tested, so the conversion may
-- panic: its result is `none` then.
use k8sgrowthbook_controller.Prelude.{Option, none, some, List, [], ◌∷◌, map, GoString}
use k8sgrowthbook_controller.Prelude.{elems, append, or_empty}
use k8sgrowthbook_controller.Prelude.Dict.{Dict, insert}
use k8sgrowthbook_controller.Prelude.Options.{◌>>=◌}
use k8sgrowthbook_controller.Api
use k8sgrowthbook_controller.Documents.Feature.{Float64, FeatureRule, Feature, EnvironmentSetting}
use k8sgrowthbook_controller.Documents.Feature.{ScheduleRule, SavedGroupTargeting}
use k8sgrowthbook_controller.Documents.Feature.{
  FeaturePrerequisite, ExperimentValue, NamespaceValue,
}
use k8sgrowthbook_controller.Effects.{Error}

-- `strconv.ParseFloat(s, 64)`: a number, and an error that the program drops.
abbrev pub ParseFloat : Type 0
ParseFloat = GoString → Float64 × Option Error

abbrev schedule_rule : Api.Feature.ScheduleRule → ScheduleRule
schedule_rule r = record { timestamp = r.timestamp; enabled = r.enabled }

abbrev saved_group : Api.Feature.SavedGroupTargeting → SavedGroupTargeting
saved_group g = record { match = g.match; ids = g.ids }

abbrev prerequisite : Api.Feature.FeaturePrerequisite → FeaturePrerequisite
prerequisite p = record { id = p.id; condition = p.condition }

module _ (parse_float : ParseFloat) where
  abbrev float_of : GoString → Float64
  float_of s = (parse_float s).0

  abbrev experiment_value : Api.Feature.ExperimentValue → ExperimentValue
  experiment_value v = record {
    id = [];
    value = v.value;
    weight = float_of v.weight;
    name = v.name;
  }

  abbrev bucket_version : Option GoString → Option Float64
  bucket_version none = none
  bucket_version (some v) = some (float_of v)

  -- The pointer of `MinBucketVersion` is followed if `BucketVersion`, the first, is not nil.
  abbrev min_bucket_version : Option GoString → Option GoString → Option (Option Float64)
  min_bucket_version none _ = some none
  min_bucket_version (some _) none = none
  min_bucket_version (some _) (some v) = some (some (float_of v))

  abbrev namespace_value : Option Api.Feature.NamespaceValue → Option NamespaceValue
  namespace_value none = none
  namespace_value (some n) =
      some
        (record { enabled = n.enabled; name = n.name; range = append none (map float_of n.range) })

  -- One rule; its `ID`, `ExperimentID` and `Variations` keep their zero values.
  unfoldable pub convert_rule : Api.Feature.FeatureRule → Option FeatureRule
  convert_rule rule = do
    min ← min_bucket_version rule.bucket_version rule.min_bucket_version
    some (record {
      id = [];
      type = rule.type;
      description = rule.description;
      condition = rule.condition;
      enabled = rule.enabled;
      schedule_rules = append none (map schedule_rule rule.schedule_rules);
      saved_groups = append none (map saved_group rule.saved_groups);
      prerequisites = append none (map prerequisite rule.prerequisites);
      value = rule.value;
      coverage = float_of rule.coverage;
      hash_attribute = rule.hash_attribute;
      tracking_key = rule.tracking_key;
      fallback_attribute = rule.fallback_attribute;
      disable_sticky_bucketing = rule.disable_sticky_bucketing;
      bucket_version = bucket_version rule.bucket_version;
      min_bucket_version = min;
      namespace = namespace_value rule.namespace;
      values = append none (map experiment_value rule.values);
      experiment_id = [];
      variations = none;
    })

  unfoldable pub convert_rules : List Api.Feature.FeatureRule → Option (List FeatureRule)
  unfolding convert_rule
  convert_rules [] = some []
  convert_rules (r ∷ rs) = do rule ← convert_rule r; rules ← convert_rules rs; some (rule ∷ rules)

  -- `Rules` stays nil unless the environment has rules; appending none leaves it nil too.
  unfoldable pub convert_environment : Api.Feature.Environment → Option EnvironmentSetting
  unfolding convert_rules
  convert_environment env = do
    rules ← convert_rules (elems env.rules)
    some (record { enabled = env.enabled; rules = append none rules })

  -- The loop over the environments; a name that comes twice keeps its last settings.
  unfoldable pub convert_environments :
      List Api.Feature.Environment → Dict EnvironmentSetting → Option (Dict EnvironmentSetting)
  unfolding convert_environment
  convert_environments [] settings = some settings
  convert_environments (env ∷ envs) settings = do
    setting ← convert_environment env
    convert_environments envs (insert env.name setting settings)

  unfoldable pub from_v1beta1 : Feature → Api.Feature.GrowthbookFeature → Option Feature
  unfolding convert_environments
  from_v1beta1 f feature = do
    settings ← convert_environments feature.spec.environments []
    some (record f {
      id = Api.Feature.get_id feature;
      description = feature.spec.description;
      tags = or_empty feature.spec.tags;
      default_value = feature.spec.default_value;
      value_type = feature.spec.value_type;
      environments = or_empty f.environments;
      environment_settings = some settings;
    })
