-- ===== src/Api/Client.antt =====
-- growthbookclient_types.go
use k8sgrowthbook_controller.Prelude.{Bool, Option, GoString, Slice}
use k8sgrowthbook_controller.Api.Meta.{Object, or_name}

pub record TokenSecretReference : Type 0 where
  pub name : GoString
  pub token_field : GoString

pub record GrowthbookClientSpec : Type 0 where
  pub languages : Slice GoString
  pub name : GoString
  pub environment : GoString
  pub encrypt_payload : Bool
  pub project : GoString
  pub include_visual_experiments : Bool
  pub include_draft_experiments : Bool
  pub include_experiment_names : Bool
  pub id : GoString
  pub token_secret : Option TokenSecretReference

pub record GrowthbookClient : Type 0 where
  pub object : Object
  pub spec : GrowthbookClientSpec

unfoldable pub get_id : GrowthbookClient → GoString
unfolding or_name
get_id c = or_name c.spec.id c.object.object_meta.name

unfoldable pub get_name : GrowthbookClient → GoString
unfolding or_name
get_name c = or_name c.spec.name c.object.object_meta.name
