-- ===== src/Api/Organization.antt =====
-- growthbookorganization_types.go
use k8sgrowthbook_controller.Prelude.{Option, List, GoString}
use k8sgrowthbook_controller.Api.Meta.{Object, LabelSelector, or_name}

pub record GrowthbookOrganizationUser : Type 0 where
  pub selector : Option LabelSelector
  pub role : GoString

-- `users` holds pointers, which may be nil.
pub record GrowthbookOrganizationSpec : Type 0 where
  pub name : GoString
  pub id : GoString
  pub owner_email : GoString
  pub users : List (Option GrowthbookOrganizationUser)
  pub resource_selector : Option LabelSelector

pub record GrowthbookOrganization : Type 0 where
  pub object : Object
  pub spec : GrowthbookOrganizationSpec

unfoldable pub get_id : GrowthbookOrganization → GoString
unfolding or_name
get_id o = or_name o.spec.id o.object.object_meta.name

unfoldable pub get_name : GrowthbookOrganization → GoString
unfolding or_name
get_name o = or_name o.spec.name o.object.object_meta.name
