-- ===== src/Tests/Reconciling.antt =====
-- Tests of internal/controllers/instance_controller.go.
use k8sgrowthbook_controller.Prelude.{true, false, ◌≡◌, refl, none, [], ◌∷◌}
use k8sgrowthbook_controller.Prelude.{◌↔◌, str, text_eq}
use k8sgrowthbook_controller.Prelude.Dict.{lookup-nil}
use k8sgrowthbook_controller.Api.Meta.{finalizer}
use k8sgrowthbook_controller.Api.Instance.{GrowthbookInstance}
use k8sgrowthbook_controller.Controller.Externals.{Stop}
use k8sgrowthbook_controller.Effects.{ok, err, ret, Prog}
use k8sgrowthbook_controller.Effects.Traces.{Ensures, Always}
use k8sgrowthbook_controller.Effects.Monitors.{Obeys}
use k8sgrowthbook_controller.Growthbook.User.{users, delete_user}
use k8sgrowthbook_controller.Growthbook.Organization.{organizations, delete_organization}
use k8sgrowthbook_controller.Growthbook.Feature.{features, delete_feature}
use k8sgrowthbook_controller.Growthbook.SdkConnection.{sdk_connections, delete_sdk_connection}
use k8sgrowthbook_controller.Controller.Catalog.{user_resource}
use k8sgrowthbook_controller.Controller.Objects.{object_key}
use k8sgrowthbook_controller.Controller.Resources.{retire, register}
use k8sgrowthbook_controller.Controller.Features.{reconcile_features}
use k8sgrowthbook_controller.Controller.Provider.{mongo_db_provider}
use k8sgrowthbook_controller.Controller.Reconciler.{reconcile, no_requeue}
use k8sgrowthbook_controller.Controller.Watches.{matches, matching_requests}
use k8sgrowthbook_controller.Safety.Permissions.{Permitted, nowhere}
use k8sgrowthbook_controller.Safety.Handlers.{Keeps, KeepsStop}
use k8sgrowthbook_controller.Safety.Reconciliation.{reconcile-Permitted, managed_if}
use k8sgrowthbook_controller.Safety.Requests.{expected, reconcile_fetched-Permitted}
use k8sgrowthbook_controller.Controller.Reconciler.{reconcile_fetched}
use k8sgrowthbook_controller.Safety.Order.{Retires, retire_order}
use k8sgrowthbook_controller.Safety.Connection.{
  connections, Closed, StaysConnected, reconcile_leaks,
}
use k8sgrowthbook_controller.Safety.Catalog.{Registered, DistinctStop, register-Registered}
use k8sgrowthbook_controller.Watching.Selection.{Selects, matches_iff, combined_selector_ignores}
use k8sgrowthbook_controller.Watching.Selection.{lists_first, Listed}
use k8sgrowthbook_controller.Controller.Clients.{reconcile_clients}
use k8sgrowthbook_controller.Watching.Requests.{In, Woken, matching_requests_iff}
use k8sgrowthbook_controller.Tests.Fixtures.{externals, externals_with, no_path, main_instance}
use k8sgrowthbook_controller.Tests.Fixtures.{deleted_instance, ann, gone, acme, db, user_ann}
use k8sgrowthbook_controller.Tests.Fixtures.{organization_acme, feature_dark_mode, connection_web}
use k8sgrowthbook_controller.Tests.Fixtures.{web_selector}

reconcile-Permitted_example :
    Ensures
      (Permitted (managed_if false) (managed_if true) true)
      (Keeps deleted_instance)
      (KeepsStop deleted_instance)
      (reconcile externals (mongo_db_provider externals) deleted_instance)
reconcile-Permitted_example = reconcile-Permitted externals deleted_instance

reconcile_fetched-Permitted_example :
    (main_instance.spec.suspend ≡ true
      → reconcile_fetched externals (mongo_db_provider externals) (ok main_instance)
        ≡ ret no_requeue)
    × Ensures
        (Permitted (managed_if true) (managed_if true) true)
        (λ r. r ≡ expected main_instance)
        Always
        (reconcile_fetched externals (mongo_db_provider externals) (ok main_instance))
reconcile_fetched-Permitted_example = reconcile_fetched-Permitted externals main_instance

retire_order_example :
    Retires
      (users db)
      user_ann.id
      (retire externals main_instance gone.object (delete_user user_ann db))
    × Retires
        (organizations db)
        organization_acme.id
        (retire externals main_instance gone.object (delete_organization organization_acme db))
    × Retires
        (features db)
        feature_dark_mode.id
        (retire externals main_instance gone.object (delete_feature feature_dark_mode db))
    × Retires
        (sdk_connections db)
        connection_web.id
        (retire externals main_instance gone.object (delete_sdk_connection connection_web db))
retire_order_example =
    retire_order externals main_instance gone.object db user_ann organization_acme feature_dark_mode
      connection_web refl

abbrev leaking : Prog Stop GrowthbookInstance
leaking =
    reconcile (externals_with (err no_path)) (mongo_db_provider (externals_with (err no_path)))
      main_instance

reconcile_leaks_example :
    (¬ Obeys connections Closed none leaking) × Ensures StaysConnected (λ j. ⊥) Always leaking
reconcile_leaks_example =
    reconcile_leaks (externals_with (err no_path)) main_instance no_path refl refl

register-Registered_example :
    Ensures
      (Permitted nowhere nowhere false)
      (Registered main_instance (user_resource ann ∷ user_resource gone ∷ []))
      DistinctStop
      (register externals finalizer (user_resource ann ∷ user_resource gone ∷ []) main_instance)
register-Registered_example =
    register-Registered externals finalizer (user_resource ann ∷ user_resource gone ∷ [])
      main_instance refl

matches_iff_example :
    (matches ((str "app", str "web") ∷ []) web_selector ≡ true)
    ↔ Selects ((str "app", str "web") ∷ []) web_selector
matches_iff_example =
    matches_iff ((str "app", str "web") ∷ []) web_selector (lookup-nil (str "app"), tt)

matching_requests_iff_example :
    In
      (object_key main_instance.object)
      (matching_requests ((str "app", str "web") ∷ []) (main_instance ∷ []))
    ↔ Woken ((str "app", str "web") ∷ []) (object_key main_instance.object) (main_instance ∷ [])
matching_requests_iff_example =
    matching_requests_iff ((str "app", str "web") ∷ []) (object_key main_instance.object)
      (main_instance ∷ []) (lookup-nil (str "app"), tt)

combined_selector_ignores_example :
    Obeys
      (lists_first main_instance.object.object_meta.namespace (record { handle = 0 }))
      Listed
      false
      (reconcile_features externals db main_instance acme)
    × Obeys
        (lists_first main_instance.object.object_meta.namespace (record { handle = 0 }))
        Listed
        false
        (reconcile_clients externals db main_instance acme)
combined_selector_ignores_example =
    combined_selector_ignores externals db main_instance acme (record { handle = 0 })
      (record { handle = 0 }) refl refl
