-- ===== src/Api/User.antt =====
-- growthbookuser_types.go
use k8sgrowthbook_controller.Prelude.{Option, GoString}
use k8sgrowthbook_controller.Api.Meta.{Object, SecretReference, or_name}

pub record GrowthbookUserSpec : Type 0 where
  pub name : GoString
  pub id : GoString
  pub email : GoString
  pub secret : Option SecretReference

pub record GrowthbookUser : Type 0 where
  pub object : Object
  pub spec : GrowthbookUserSpec

unfoldable pub get_id : GrowthbookUser → GoString
unfolding or_name
get_id u = or_name u.spec.id u.object.object_meta.name

unfoldable pub get_name : GrowthbookUser → GoString
unfolding or_name
get_name u = or_name u.spec.name u.object.object_meta.name
