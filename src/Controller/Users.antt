-- ===== src/Controller/Users.antt =====
-- `reconcileUsers`
use k8sgrowthbook_controller.Prelude.{map, GoString, is_empty, if◌then◌else◌}
use k8sgrowthbook_controller.Api.User.{GrowthbookUser}
use k8sgrowthbook_controller.Api.Instance.{GrowthbookInstance}
use k8sgrowthbook_controller.Documents.User.{User, empty_user}
use k8sgrowthbook_controller.Effects.{Error, Prog, ret, call, ◌>>=◌, ◌>>◌, from_result}
use k8sgrowthbook_controller.Effects.{Database, list_users}
use k8sgrowthbook_controller.Growthbook.User.{from_v1beta1, set_password, update_user, delete_user}
use k8sgrowthbook_controller.Controller.Externals.{Externals, Stop}
use k8sgrowthbook_controller.Controller.Catalog.{user_resource}
use k8sgrowthbook_controller.Controller.Secrets.{get_optional_username_password}
use k8sgrowthbook_controller.Controller.Resources.{stopping, for_each, both_live, selector_of}
use k8sgrowthbook_controller.Controller.Resources.{register_live, retire}

abbrev pub named : GoString → User → User
named username u = if is_empty username then u else record u { name = username }

module _ (x : Externals) (db : Database) where
  -- A user of a live instance that is not being deleted itself.
  unfoldable pub upsert_user : GrowthbookInstance → GrowthbookUser → Prog Error Unit
  upsert_user i user = do
    credentials ← get_optional_username_password i user.spec.secret
    u ←
        set_password x.scrypt_key (named credentials.0 (from_v1beta1 empty_user user)) db
          credentials.1
    update_user u db

  -- The body of the second loop.
  unfoldable pub reconcile_user : GrowthbookInstance → GrowthbookUser → Prog Error Unit
  unfolding upsert_user
  reconcile_user i user =
      if both_live i user.object
      then upsert_user i user
      else retire x i user.object (delete_user (from_v1beta1 empty_user user) db)

  unfoldable pub reconcile_users : GrowthbookInstance → Prog Stop GrowthbookInstance
  unfolding reconcile_user
  reconcile_users i = do
    selector ← stopping i (selector_of x i.spec.resource_selector)
    users ← stopping i (call (list_users i.object.object_meta.namespace selector) from_result)
    i' ← register_live x (map user_resource users) i
    stopping i' (for_each (reconcile_user i') users)
    ret i'
