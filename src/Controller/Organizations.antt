-- ===== src/Controller/Organizations.antt =====
-- `reconcileOrganizations`
use k8sgrowthbook_controller.Prelude.{Option, none, some, List, [], ◌∷◌, map, GoString, append}
use k8sgrowthbook_controller.Prelude.{if◌then◌else◌}
use k8sgrowthbook_controller.Api
use k8sgrowthbook_controller.Api.User.{GrowthbookUser}
use k8sgrowthbook_controller.Api.Organization.{GrowthbookOrganization, GrowthbookOrganizationUser}
use k8sgrowthbook_controller.Api.Instance.{GrowthbookInstance}
use k8sgrowthbook_controller.Documents.Organization.{Organization, OrganizationMember}
use k8sgrowthbook_controller.Documents.Organization.{empty_organization}
use k8sgrowthbook_controller.Effects.{Error, Prog, ret, call, panicked, ◌>>=◌, ◌>>◌, from_result}
use k8sgrowthbook_controller.Effects.{Database, list_users, list_organizations}
use k8sgrowthbook_controller.Growthbook.Organization.{from_v1beta1, update_organization}
use k8sgrowthbook_controller.Growthbook.Organization.{delete_organization}
use k8sgrowthbook_controller.Controller.Externals.{Externals, Stop}
use k8sgrowthbook_controller.Controller.Catalog.{organization_resource}
use k8sgrowthbook_controller.Controller.Resources.{stopping, for_each, both_live, selector_of}
use k8sgrowthbook_controller.Controller.Resources.{register_live, retire}

abbrev pub member : GoString → GrowthbookUser → OrganizationMember
member role user = record { id = Api.User.get_id user; role = role }

module _ (x : Externals) (db : Database) where
  -- The loop over `org.Spec.Users`; a nil entry is followed, and panics.
  unfoldable pub add_members :
      GrowthbookInstance
      → List (Option GrowthbookOrganizationUser)
      → Organization
      → Prog Error Organization
  add_members i [] o = ret o
  add_members i (none ∷ bindings) o = panicked
  add_members i (some binding ∷ bindings) o = selector_of x binding.selector >>= λ selector.
      call (list_users i.object.object_meta.namespace selector) from_result >>= λ users.
      add_members i bindings
        (record o { members = append o.members (map (member binding.role) users) })

  -- The body of the second loop.
  unfoldable pub reconcile_organization :
      GrowthbookInstance → GrowthbookOrganization → Prog Error Unit
  unfolding add_members
  reconcile_organization i org = do
    o ← add_members i org.spec.users (from_v1beta1 empty_organization org)
    if both_live i org.object
        then update_organization o db
        else retire x i org.object (delete_organization o db)

  -- It returns the organizations as they were listed.
  unfoldable pub reconcile_organizations :
      GrowthbookInstance → Prog Stop (GrowthbookInstance × List GrowthbookOrganization)
  unfolding reconcile_organization
  reconcile_organizations i = do
    selector ← stopping i (selector_of x i.spec.resource_selector)
    orgs ←
        stopping i (call (list_organizations i.object.object_meta.namespace selector) from_result)
    i' ← register_live x (map organization_resource orgs) i
    stopping i' (for_each (reconcile_organization i') orgs)
    ret (i', orgs)
