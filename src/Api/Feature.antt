-- ===== src/Api/Feature.antt =====
-- growthbookfeature_types.go. Numbers stand as text here, and are parsed on the way to the database.
use k8sgrowthbook_controller.Prelude.{Bool, Option, List, GoString, Slice}
use k8sgrowthbook_controller.Api.Meta.{Object, or_name}

-- "boolean", "string", "number" or "json"
abbrev pub FeatureValueType : Type 0
FeatureValueType = GoString

-- "all", "none" or "any"
abbrev pub SavedGroupTargetingMatch : Type 0
SavedGroupTargetingMatch = GoString

-- "force", "rollout", "experiment" or "experiment-ref"
abbrev pub FeatureRuleType : Type 0
FeatureRuleType = GoString

pub record ExperimentRefVariation : Type 0 where
  pub variation_id : GoString
  pub value : GoString

pub record FeaturePrerequisite : Type 0 where
  pub id : GoString
  pub condition : GoString

pub record ScheduleRule : Type 0 where
  pub timestamp : GoString
  pub enabled : Bool

pub record SavedGroupTargeting : Type 0 where
  pub match : SavedGroupTargetingMatch
  pub ids : Slice GoString

pub record ExperimentValue : Type 0 where
  pub value : GoString
  pub weight : GoString
  pub name : Option GoString

pub record NamespaceValue : Type 0 where
  pub enabled : Bool
  pub name : GoString
  pub range : List GoString

pub record FeatureRule : Type 0 where
  pub type : FeatureRuleType
  pub description : GoString
  pub condition : GoString
  pub enabled : Bool
  pub schedule_rules : List ScheduleRule
  pub saved_groups : List SavedGroupTargeting
  pub prerequisites : List FeaturePrerequisite
  pub value : GoString
  pub coverage : GoString
  pub hash_attribute : GoString
  pub tracking_key : GoString
  pub fallback_attribute : Option GoString
  pub disable_sticky_bucketing : Option Bool
  pub bucket_version : Option GoString
  pub min_bucket_version : Option GoString
  pub namespace : Option NamespaceValue
  pub values : List ExperimentValue
  pub experiment_id : GoString
  pub variations : List ExperimentRefVariation

pub record Environment : Type 0 where
  pub name : GoString
  pub enabled : Bool
  pub rules : Slice FeatureRule

pub record GrowthbookFeatureSpec : Type 0 where
  pub id : GoString
  pub description : GoString
  pub tags : Slice GoString
  pub default_value : GoString
  pub value_type : FeatureValueType
  pub environments : List Environment

pub record GrowthbookFeature : Type 0 where
  pub object : Object
  pub spec : GrowthbookFeatureSpec

unfoldable pub get_id : GrowthbookFeature → GoString
unfolding or_name
get_id f = or_name f.spec.id f.object.object_meta.name
