-- ===== src/Tests/Whole.antt =====
-- Runs of the handlers and of a whole `Reconcile` in the world in memory.
use k8sgrowthbook_controller.Prelude.{◌≡◌, refl, [], ◌∷◌, none, str}
use k8sgrowthbook_controller.Prelude.{text_eq}
use k8sgrowthbook_controller.Api
use k8sgrowthbook_controller.Effects.Runs.{run}
use k8sgrowthbook_controller.Controller.Users.{reconcile_users}
use k8sgrowthbook_controller.Controller.Organizations.{reconcile_organizations}
use k8sgrowthbook_controller.Controller.Features.{reconcile_features}
use k8sgrowthbook_controller.Controller.Clients.{reconcile_clients}
use k8sgrowthbook_controller.Controller.Provider.{mongo_db_provider}
use k8sgrowthbook_controller.Controller.Reconciler.{reconcile_request}
use k8sgrowthbook_controller.Controller.Objects.{object_key}
use k8sgrowthbook_controller.Refinement.Stopping.{StopsAtUser, reconcile_connected_stops}
use k8sgrowthbook_controller.Tests.World.{world_with}
use k8sgrowthbook_controller.Tests.Memory.{refused}
use k8sgrowthbook_controller.Effects.{err}
use k8sgrowthbook_controller.Effects.Runs.{Handler}
use k8sgrowthbook_controller.Controller.Reconciler.{reconcile_connected}
use k8sgrowthbook_controller.Refinement.Handling.{Reconciles}
use k8sgrowthbook_controller.Refinement.Population.{user_line, reconcile_users-Reconciles}
use k8sgrowthbook_controller.Refinement.Membership.{
  organization_line, reconcile_organizations-Reconciles,
}
use k8sgrowthbook_controller.Refinement.Rollout.{feature_line, reconcile_features-Reconciles}
use k8sgrowthbook_controller.Refinement.Access.{client_line, reconcile_clients-Reconciles}
use k8sgrowthbook_controller.Refinement.World.{IsCluster-for}
use k8sgrowthbook_controller.Refinement.Connected.{database_of}
use k8sgrowthbook_controller.Refinement.Requests.{
  Reconciled, reconcile_request-Reconciled, reconcile_request_settles,
}
use k8sgrowthbook_controller.Refinement.Stability.{IsDistinct, IsStable}
use k8sgrowthbook_controller.Refinement.Conclusion.{due}
use k8sgrowthbook_controller.Controller.Reconciler.{ReconcileResult}
use k8sgrowthbook_controller.Effects.{Prog, Error}
use k8sgrowthbook_controller.Effects.Runs.{returned}
use k8sgrowthbook_controller.Tests.World.{State, world_memory, contents}
use k8sgrowthbook_controller.Tests.Apart.{world_with-IsWorld}
use k8sgrowthbook_controller.Tests.Fixtures.{externals, main_instance, ann_with_secret, gone, db}
use k8sgrowthbook_controller.Tests.Fixtures.{acme_with_users, dark_mode, web, ann_secret}
use k8sgrowthbook_controller.Tests.Estate.{
  whole_world, everything, start, users_ready, organizations_ready, tenant, estate, reachable,
  reported, world,
}

reconcile_users-Reconciles_example :
    Reconciles
      (user_line externals world_memory main_instance)
      contents.user_of
      main_instance
      (λ j. j)
      (ann_with_secret ∷ gone ∷ [])
      users_ready
      start
      (run world_memory (reconcile_users externals db main_instance) start)
reconcile_users-Reconciles_example =
    reconcile_users-Reconciles externals db world_memory world.no_documents world.user_bson
      contents.user_of world.user_shelf contents.finalizers world.cluster world.hashes main_instance
      everything (ann_with_secret ∷ gone ∷ []) refl (λ s. refl) users_ready start

reconcile_organizations-Reconciles_example :
    Reconciles
      (organization_line externals world_memory main_instance)
      contents.organization_of
      main_instance
      (λ j. (j, acme_with_users ∷ []))
      (acme_with_users ∷ [])
      organizations_ready
      start
      (run world_memory (reconcile_organizations externals db main_instance) start)
reconcile_organizations-Reconciles_example =
    reconcile_organizations-Reconciles externals db world_memory world.no_documents
      world.organization_bson contents.organization_of world.organization_shelf contents.finalizers
      (IsCluster-for world.organizations_apart world.cluster) main_instance everything
      (acme_with_users ∷ []) refl (λ s. refl) organizations_ready start

reconcile_features-Reconciles_example :
    Reconciles
      (feature_line externals main_instance acme_with_users)
      contents.feature_of
      main_instance
      (λ j. j)
      (dark_mode none ∷ [])
      tenant.features_ready
      start
      (run world_memory (reconcile_features externals db main_instance acme_with_users) start)
reconcile_features-Reconciles_example =
    reconcile_features-Reconciles externals db world_memory world.no_documents world.read_feature
      contents.feature_of world.feature_shelf contents.finalizers
      (IsCluster-for world.features_apart world.cluster) main_instance acme_with_users everything
      everything (dark_mode none ∷ []) refl refl (λ s. refl) tenant.features_ready start

reconcile_clients-Reconciles_example :
    Reconciles
      (client_line world_memory main_instance acme_with_users)
      contents.connection_of
      main_instance
      (λ j. j)
      (web ∷ [])
      tenant.clients_ready
      start
      (run world_memory (reconcile_clients externals db main_instance acme_with_users) start)
reconcile_clients-Reconciles_example =
    reconcile_clients-Reconciles externals db world_memory world.no_documents world.connection_bson
      contents.connection_of world.connection_shelf world.payload_cache contents.finalizers
      (IsCluster-for world.connections_apart world.cluster) main_instance acme_with_users everything
      everything (web ∷ []) refl refl (λ s. refl) tenant.clients_ready start

reconcile_request-Reconciled_example :
    Reconciled externals world_memory contents main_instance reachable
      (whole_world (database_of reachable))
      estate
      reported
      start
      (run world_memory
        (reconcile_request externals
          (mongo_db_provider externals)
          (object_key main_instance.object))
        start)
reconcile_request-Reconciled_example =
    reconcile_request-Reconciled externals world_memory contents main_instance reachable
      (whole_world (database_of reachable)) estate reported main_instance.status
      (object_key main_instance.object) start refl refl

distinct : IsDistinct externals world_memory main_instance estate
unfolding Api.User.get_id Api.Meta.or_name str text_eq
distinct = record {
  users = (refl, (refl, tt));
  organizations = (refl, tt);
  clients = ((refl, tt), λ j _. refl, tt);
}

abbrev request : Prog (ReconcileResult × Error) ReconcileResult
request =
    reconcile_request externals (mongo_db_provider externals) (object_key main_instance.object)

-- The world after the first request.
abbrev later : State
later = (run world_memory request start).1

reconcile_request_settles_example :
    ((run world_memory request later).0 ≡ returned (due main_instance))
    × IsStable contents later (run world_memory request later).1
reconcile_request_settles_example =
    reconcile_request_settles externals world_memory contents main_instance reachable
      (whole_world (database_of reachable)) estate reported main_instance.status
      main_instance.status (object_key main_instance.object) start refl distinct refl refl

-- The user that goes is listed first, and no secret is there.
abbrev secretless : Handler State
secretless = world_with (err refused) (gone ∷ ann_with_secret ∷ [])

reconcile_connected_stops_example :
    StopsAtUser externals db secretless contents
      (world_with-IsWorld (err refused) (gone ∷ ann_with_secret ∷ []) db)
      main_instance
      everything
      (gone ∷ [])
      ann_with_secret
      []
      refl
      (λ s. refl)
      (tt, tt)
      ann_secret
      refused
      refl
      refl
      (λ s. refl)
      start
      (run secretless (reconcile_connected externals db main_instance) start)
reconcile_connected_stops_example =
    reconcile_connected_stops externals db secretless contents
      (world_with-IsWorld (err refused) (gone ∷ ann_with_secret ∷ []) db) main_instance everything
      (gone ∷ []) ann_with_secret [] refl (λ s. refl) (tt, tt) ann_secret refused refl refl
      (λ s. refl) main_instance.status start
