-- ===== src/Start/Setup.antt =====
-- `SetupWithManager` of internal/controllers/instance_controller.go.
use k8sgrowthbook_controller.Prelude.{[], ◌∷◌, GoString, str, ℤ}
use k8sgrowthbook_controller.Effects.{Error, Result, ok, err}
use k8sgrowthbook_controller.Controller.Externals.{Externals}
use k8sgrowthbook_controller.Controller.Provider.{DatabaseProvider}
use k8sgrowthbook_controller.Controller.Reconciler.{reconcile_request}
use k8sgrowthbook_controller.Controller.Watches.{secret_index, requests_for_change_by_field}
use k8sgrowthbook_controller.Controller.Watches.{requests_for_change_by_selector}
use k8sgrowthbook_controller.Start.Steps.{
  ObjectType, instance_type, user_type, organization_type, client_type, feature_type,
}
use k8sgrowthbook_controller.Start.Steps.{
  secret_type, Watch, Registration, generation_changed_predicate, Manager, Startup, done,
}
use k8sgrowthbook_controller.Start.Steps.{step, index_field, complete}

abbrev pub secret_index_key : GoString
secret_index_key = str ".metadata.secret"

abbrev pub by_selector : ObjectType → Watch
by_selector watched = record { watched = watched; requests = requests_for_change_by_selector }

module _ (x : Externals) (provider : DatabaseProvider) where
  unfoldable pub registration : ℤ → Registration
  registration max_concurrent = record {
    for_type = instance_type;
    predicates = generation_changed_predicate ∷ [];
    watches =
        record { watched = secret_type; requests = requests_for_change_by_field secret_index_key }
        ∷ by_selector user_type
        ∷ by_selector organization_type
        ∷ by_selector client_type
        ∷ by_selector feature_type
        ∷ [];
    max_concurrent_reconciles = max_concurrent;
    reconciler = reconcile_request x provider;
  }

  unfoldable pub setup_with_manager : Manager → ℤ → Startup (Result Error Unit)
  unfolding registration
  setup_with_manager mgr max_concurrent =
      step (index_field mgr instance_type secret_index_key (secret_index x)) λ indexed.
        elim indexed [
          | err e ↦ done (err e)
          | ok _ ↦ step (complete mgr (registration max_concurrent)) done
        ]
