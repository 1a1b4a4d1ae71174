-- ===== src/Documents/Feature.antt =====
-- `Feature` and its parts, of internal/growthbook/feature.go. The tags of the fields are BSON's: that
-- an empty slice with `omitempty` is left out, and that a map is written in any order, is a matter
-- of the calls that marshal and decode, and is stated in Refinement/FeatureShelf.
use k8sgrowthbook_controller.Prelude.{ℕ, GoString, Bool, false, Option, Slice, ℤ, pos, none, []}
use k8sgrowthbook_controller.Prelude.Dict.{Dict}
use k8sgrowthbook_controller.Api.Meta.{Time}

-- The bits of a `float64`; the program only passes such numbers on.
abbrev pub Float64 : Type 0
Float64 = ℕ

pub record ExperimentRefVariation : Type 0 where
  pub variation_id : GoString
  pub value : GoString

pub record FeaturePrerequisite : Type 0 where
  pub id : GoString
  pub condition : GoString

pub record ScheduleRule : Type 0 where
  pub timestamp : GoString
  pub enabled : Bool

pub record SavedGroupTargeting : Type 0 where
  pub match : GoString
  pub ids : Slice GoString

pub record ExperimentValue : Type 0 where
  pub id : GoString
  pub value : GoString
  pub weight : Float64
  pub name : Option GoString

pub record NamespaceValue : Type 0 where
  pub enabled : Bool
  pub name : GoString
  pub range : Slice Float64

pub record FeatureRule : Type 0 where
  pub id : GoString
  pub type : GoString
  pub description : GoString
  pub condition : GoString
  pub enabled : Bool
  pub schedule_rules : Slice ScheduleRule
  pub saved_groups : Slice SavedGroupTargeting
  pub prerequisites : Slice FeaturePrerequisite
  pub value : GoString
  pub coverage : Float64
  pub hash_attribute : GoString
  pub tracking_key : GoString
  pub fallback_attribute : Option GoString
  pub disable_sticky_bucketing : Option Bool
  pub bucket_version : Option Float64
  pub min_bucket_version : Option Float64
  pub namespace : Option NamespaceValue
  pub values : Slice ExperimentValue
  pub experiment_id : GoString
  pub variations : Slice ExperimentRefVariation

pub record EnvironmentSetting : Type 0 where
  pub enabled : Bool
  pub rules : Slice FeatureRule

-- `environment_settings` is `none` for a nil map.
pub record Feature : Type 0 where
  pub id : GoString
  pub owner : GoString
  pub description : GoString
  pub tags : Slice GoString
  pub default_value : GoString
  pub value_type : GoString
  pub organization : GoString
  pub environments : Slice GoString
  pub environment_settings : Option (Dict EnvironmentSetting)
  pub date_created : Time
  pub date_updated : Time
  pub archived : Bool
  pub revision : ℤ

-- `Feature{}`
abbrev pub empty_feature : Feature
empty_feature = record {
  id = [];
  owner = [];
  description = [];
  tags = none;
  default_value = [];
  value_type = [];
  organization = [];
  environments = none;
  environment_settings = none;
  date_created = 0;
  date_updated = 0;
  archived = false;
  revision = pos 0;
}
