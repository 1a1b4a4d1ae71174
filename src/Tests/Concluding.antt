-- ===== src/Tests/Concluding.antt =====
-- Tests of how `Reconcile` ends, in internal/controllers/instance_controller.go.
use k8sgrowthbook_controller.Prelude.{◌≡◌, refl, arith, ◌∷◌, text_eq}
use k8sgrowthbook_controller.Effects.{ok, err}
use k8sgrowthbook_controller.Effects.Traces.{Ensures}
use k8sgrowthbook_controller.Effects.Monitors.{Obeys}
use k8sgrowthbook_controller.Effects.Runs.{run, returned, failed}
use k8sgrowthbook_controller.Controller.Provider.{mongo_db_provider}
use k8sgrowthbook_controller.Controller.Reconciler.{conclude, requeue_now, result_after}
use k8sgrowthbook_controller.Safety.Reports.{publishing, pending, IsPublished}
use k8sgrowthbook_controller.Safety.Outcome.{Sets, Reporting, failed_with, synchronized}
use k8sgrowthbook_controller.Safety.Outcome.{conclude_failure, conclude_success}
use k8sgrowthbook_controller.Tests.Fixtures.{externals, no_path, main_instance}
use k8sgrowthbook_controller.Tests.World.{world_memory}
use k8sgrowthbook_controller.Tests.Estate.{start, reported}

cons-Sets : Sets (λ cs c. c ∷ cs)
cons-Sets cs c = ground arith

conclude_failure_example :
    let m = conclude externals (mongo_db_provider externals) 10 12 (err (main_instance, no_path)) in
    Ensures (Reporting main_instance (failed_with no_path) ⊥) (λ r. ⊥) (λ s. s.0 ≡ requeue_now) m
    × Obeys (publishing main_instance) IsPublished pending m
    × ((run world_memory m start).0 ≡ failed (requeue_now, no_path))
conclude_failure_example =
    conclude_failure externals (mongo_db_provider externals) cons-Sets 10 12 main_instance
      world_memory reported start no_path

conclude_success_example :
    let m = conclude externals (mongo_db_provider externals) 10 12 (ok main_instance) in
    Ensures
      (Reporting main_instance synchronized ⊥)
      (λ r. r ≡ result_after main_instance.spec.interval)
      (λ s. s.0 ≡ requeue_now)
      m
    × Obeys (publishing main_instance) IsPublished pending m
    × ((run world_memory m start).0 ≡ returned (result_after main_instance.spec.interval))
conclude_success_example =
    conclude_success externals (mongo_db_provider externals) cons-Sets 10 12 main_instance
      world_memory reported start refl
