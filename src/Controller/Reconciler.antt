-- ===== src/Controller/Reconciler.antt =====
-- `reconcile` and `Reconcile`. The timeout of the context is not modelled apart: a deadline that
-- passes shows as an error of the calls that follow.
use k8sgrowthbook_controller.Prelude.{Bool, true, false, Option, none, some, List, [], ◌∷◌}
use k8sgrowthbook_controller.Prelude.{GoString, str, sub_ℕ, pos, if◌then◌else◌}
use k8sgrowthbook_controller.Api.Meta.{
  SecretReference, Duration, Time, ObjectKey, is_live, finalizer,
}
use k8sgrowthbook_controller.Api.Meta.{synchronized_reason, failed_reason}
use k8sgrowthbook_controller.Api.Organization.{GrowthbookOrganization}
use k8sgrowthbook_controller.Api.Instance.{GrowthbookInstance, growthbook_instance_ready}
use k8sgrowthbook_controller.Api.Instance.{growthbook_instance_not_ready}
use k8sgrowthbook_controller.Effects.{Error, wrapped, error_text, is_not_found, Result, ok, err}
use k8sgrowthbook_controller.Effects.{Prog, ret, fail, call, ◌>>=◌, ◌>>◌, attempt, failing_as}
use k8sgrowthbook_controller.Effects.{deferring, Database, get_instance, now, record_event}
use k8sgrowthbook_controller.Storage.{disconnect}
use k8sgrowthbook_controller.Controller.Externals.{Externals, Stop}
use k8sgrowthbook_controller.Controller.Objects.{add_finalizer, remove_finalizer, patch_status}
use k8sgrowthbook_controller.Controller.Secrets.{get_username_password}
use k8sgrowthbook_controller.Controller.Catalog.{set_catalog}
use k8sgrowthbook_controller.Controller.Resources.{stopping}
use k8sgrowthbook_controller.Controller.Users.{reconcile_users}
use k8sgrowthbook_controller.Controller.Organizations.{reconcile_organizations}
use k8sgrowthbook_controller.Controller.Features.{reconcile_features}
use k8sgrowthbook_controller.Controller.Clients.{reconcile_clients}
use k8sgrowthbook_controller.Controller.Provider.{DatabaseProvider}

-- `ctrl.Result`
pub record ReconcileResult : Type 0 where
  pub requeue : Bool
  pub requeue_after : Duration

-- `ctrl.Result{}` and `ctrl.Result{Requeue: true}`
abbrev pub no_requeue : ReconcileResult
no_requeue = record { requeue = false; requeue_after = pos 0 }

abbrev pub requeue_now : ReconcileResult
requeue_now = record { requeue = true; requeue_after = pos 0 }

-- `fmt.Errorf("prefix: %w", err)`
abbrev pub while_doing : {A : Type 0} → GoString → Prog Stop A → Prog Stop A
while_doing prefix m = failing_as (λ s. (s.0, wrapped prefix s.1)) m

abbrev pub root_credentials :
    GrowthbookInstance → Option SecretReference → Prog Error (GoString × GoString)
root_credentials i none = ret ([], [])
root_credentials i (some ref) = get_username_password i (some ref)

abbrev pub result_after : Option Duration → ReconcileResult
result_after none = no_requeue
result_after (some interval) = record { requeue = false; requeue_after = interval }

module _ (x : Externals) where
  -- The loop over the organizations.
  unfoldable pub reconcile_each_organization :
      Database → List GrowthbookOrganization → GrowthbookInstance → Prog Stop GrowthbookInstance
  reconcile_each_organization db [] i = ret i
  reconcile_each_organization db (org ∷ orgs) i =
      while_doing (str "failed reconciling features") (reconcile_features x db i org) >>= λ i'.
      while_doing (str "failed reconciling clients") (reconcile_clients x db i' org) >>= λ i''.
      reconcile_each_organization db orgs i''

  -- What `reconcile` does while it is connected.
  unfoldable pub reconcile_connected : Database → GrowthbookInstance → Prog Stop GrowthbookInstance
  unfolding reconcile_each_organization
  reconcile_connected db i = do
    i' ← while_doing (str "failed reconciling users") (reconcile_users x db (set_catalog i []))
    organized ←
        while_doing (str "failed reconciling organizations") (reconcile_organizations x db i')
    reconcile_each_organization db organized.1 organized.0

  module _ (provider : DatabaseProvider) where
    unfoldable pub reconcile : GrowthbookInstance → Prog Stop GrowthbookInstance
    unfolding reconcile_connected
    reconcile i = do
      credentials ← stopping i (root_credentials i i.spec.mongo_db.secret)
      connected ← stopping i (provider i credentials.0 credentials.1)
      deferring (disconnect connected.0) (reconcile_connected connected.1 i)

    -- `Status.LastReconcileDuration` and `Status.ObservedGeneration`
    abbrev pub stamped : Time → Time → GrowthbookInstance → GrowthbookInstance
    stamped start end i = record i {
      status = record i.status {
        last_reconcile_duration = sub_ℕ end start;
        observed_generation = i.object.object_meta.generation;
      };
    }

    -- Status update; the result and error of `Reconcile` otherwise.
    abbrev pub publish :
        GrowthbookInstance
        → Prog (ReconcileResult × Error) ReconcileResult
        → Prog (ReconcileResult × Error) ReconcileResult
    publish i otherwise = failing_as (λ e. (requeue_now, e)) (patch_status i) >>= λ _. otherwise

    -- What `Reconcile` does after `reconcile`.
    unfoldable pub conclude :
        Time
        → Time
        → Result Stop GrowthbookInstance
        → Prog (ReconcileResult × Error) ReconcileResult
    conclude start end (err (i, e)) =
        let i' = stamped start end i in
        call (record_event i' (str "Normal") (str "error") (error_text e)) λ _.
          publish
            (growthbook_instance_not_ready x.set_status_condition i' failed_reason (error_text e))
            (fail (requeue_now, e))
    conclude start end (ok i) =
        let i' = stamped start end i in
        if is_live i'.object
        then (call
            (record_event i' (str "Normal") (str "info") (str "instance successfully reconciled"))
            λ _.
              publish
                (growthbook_instance_ready x.set_status_condition i' synchronized_reason
                  (str "instance successfully reconciled"))
                (ret (result_after i'.spec.interval)))
        else failing_as (λ e. (no_requeue, e)) (remove_finalizer x finalizer i'.object) >>= λ _.
            ret no_requeue

    -- An instance that is there and not suspended.
    unfoldable pub reconcile_active :
        GrowthbookInstance → Prog (ReconcileResult × Error) ReconcileResult
    unfolding reconcile conclude
    reconcile_active i = do
      failing_as (λ e. (no_requeue, e)) (add_finalizer x finalizer i.object)
      start ← call now ret
      attempt (reconcile i) λ result. call now λ end. conclude start end result

    -- `Reconcile` after the instance was asked for.
    unfoldable pub reconcile_fetched :
        Result Error GrowthbookInstance → Prog (ReconcileResult × Error) ReconcileResult
    unfolding reconcile_active
    reconcile_fetched (err e) = if is_not_found e then ret no_requeue else fail (no_requeue, e)
    reconcile_fetched (ok i) = if i.spec.suspend then ret no_requeue else reconcile_active i

    -- `Reconcile`: `ret r` is `(r, nil)` and `fail (r, e)` is `(r, e)`.
    unfoldable pub reconcile_request : ObjectKey → Prog (ReconcileResult × Error) ReconcileResult
    unfolding reconcile_fetched
    reconcile_request key = call (get_instance key) reconcile_fetched
