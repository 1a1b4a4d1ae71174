-- ===== src/Controller/Clients.antt =====
-- `reconcileClients`
use k8sgrowthbook_controller.Prelude.{map, if◌then◌else◌}
use k8sgrowthbook_controller.Api
use k8sgrowthbook_controller.Api.Organization.{GrowthbookOrganization}
use k8sgrowthbook_controller.Api.Client.{GrowthbookClient}
use k8sgrowthbook_controller.Api.Instance.{GrowthbookInstance}
use k8sgrowthbook_controller.Documents.SdkConnection.{SdkConnection, empty_sdk_connection}
use k8sgrowthbook_controller.Effects.{Error, Prog, ret, call, ◌>>=◌, ◌>>◌, from_result, or_panic}
use k8sgrowthbook_controller.Effects.{Database, list_clients}
use k8sgrowthbook_controller.Growthbook.SdkConnection.{from_v1beta1, update_sdk_connection}
use k8sgrowthbook_controller.Growthbook.SdkConnection.{delete_sdk_connection}
use k8sgrowthbook_controller.Controller.Externals.{Externals, Stop}
use k8sgrowthbook_controller.Controller.Catalog.{client_resource}
use k8sgrowthbook_controller.Controller.Secrets.{get_client_token}
use k8sgrowthbook_controller.Controller.Tokens.{sdk_key}
use k8sgrowthbook_controller.Controller.Resources.{
  stopping, for_each, both_live, register_live, retire,
}
use k8sgrowthbook_controller.Controller.Features.{combined_selector}

-- The connection that a client specifies, for an organization; it has no key yet.
abbrev pub connection_of : GrowthbookOrganization → GrowthbookClient → SdkConnection
connection_of org client =
    from_v1beta1 (record empty_sdk_connection { organization = Api.Organization.get_id org }) client

module _ (x : Externals) (db : Database) where
  -- A client of a live instance that is not being deleted itself.
  unfoldable pub upsert_client : GrowthbookOrganization → GrowthbookClient → Prog Error Unit
  upsert_client org client = do
    token ← get_client_token client
    key ← or_panic (sdk_key token)
    update_sdk_connection (record (connection_of org client) { key = key }) db

  -- The body of the second loop.
  unfoldable pub reconcile_client :
      GrowthbookInstance → GrowthbookOrganization → GrowthbookClient → Prog Error Unit
  unfolding upsert_client
  reconcile_client i org client =
      if both_live i client.object
      then upsert_client org client
      else retire x i client.object (delete_sdk_connection (connection_of org client) db)

  unfoldable pub reconcile_clients :
      GrowthbookInstance → GrowthbookOrganization → Prog Stop GrowthbookInstance
  unfolding reconcile_client combined_selector
  reconcile_clients i org = do
    selector ← stopping i (combined_selector x i org)
    clients ← stopping i (call (list_clients i.object.object_meta.namespace selector) from_result)
    i' ← register_live x (map client_resource clients) i
    stopping i' (for_each (reconcile_client i' org) clients)
    ret i'
