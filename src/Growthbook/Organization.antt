-- ===== src/Growthbook/Organization.antt =====
-- internal/growthbook/organization.go
use k8sgrowthbook_controller.Prelude.{none, some, str, or_empty, Slice}
use k8sgrowthbook_controller.Prelude.{◌==◌, text_eq, if◌then◌else◌}
use k8sgrowthbook_controller.Api.Organization.{GrowthbookOrganization, get_id, get_name}
use k8sgrowthbook_controller.Documents.Organization.{Organization}
use k8sgrowthbook_controller.Effects.{Error, Result, ok, err, Prog, ret, call, ◌>>=◌, attempt}
use k8sgrowthbook_controller.Effects.{from_result, Database, Collection, Filter}
use k8sgrowthbook_controller.Effects.{organization_document, decode_organization, marshal, now}
use k8sgrowthbook_controller.Storage.{collection, find_one, insert_one, update_one, delete_one}
use k8sgrowthbook_controller.Storage.{by_id, set_document}
use k8sgrowthbook_controller.Prelude.{Bytes}

-- `db.Collection("organizations")`
unfoldable pub organizations : Database → Collection
unfolding collection
organizations db = collection db (str "organizations")

unfoldable pub from_v1beta1 : Organization → GrowthbookOrganization → Organization
from_v1beta1 o org = record o {
  name = get_name org;
  id = get_id org;
  owner_email = org.spec.owner_email;
}

unfoldable pub delete_organization : Organization → Database → Prog Error Unit
unfolding organizations
delete_organization org db = delete_one (organizations db) (by_id org.id)

-- The members of the document stay if the specification selects none.
abbrev pub or_existing {ℓ} : {A : Type ℓ} → Slice A → Slice A → Slice A
or_existing existing none = existing
or_existing existing (some xs) = some xs

-- The fields of an existing document that the controller sets.
unfoldable pub overlay : Organization → Organization → Organization
overlay existing org = record existing {
  id = org.id;
  owner_email = org.owner_email;
  name = org.name;
  members = or_existing existing.members org.members;
}

-- `UpdateOrganization` after `FindOne`.
unfoldable pub update_found :
    Collection → Filter → Organization → Result Error Bytes → Prog Error Unit
update_found col filter org (err _) = call now λ time.
    insert_one col
      (organization_document (record org { members = or_empty org.members; date_created = time }))
update_found col filter org (ok found) = do
  existing ← call (decode_organization found) from_result
  existing_bson ← call (marshal (organization_document existing)) from_result
  update_bson ← call (marshal (organization_document (overlay existing org))) from_result
  if existing_bson == update_bson then ret tt else update_one col filter (set_document update_bson)

unfoldable pub update_organization : Organization → Database → Prog Error Unit
unfolding organizations update_found
update_organization org db =
    attempt (find_one (organizations db) (by_id org.id))
      (update_found (organizations db) (by_id org.id) org)
