-- ===== src/Safety/Requests.antt =====
-- A whole `Reconcile` of an instance that was fetched.
use k8sgrowthbook_controller.Prelude.{
  Bool, true, false, not, ◌&&◌, GoString, ◌≡◌, refl, ap, ◌∙◌, arith, inl, inr,
}
use k8sgrowthbook_controller.Prelude.{Bool-cases, if◌then◌else◌}
use k8sgrowthbook_controller.Api.Meta.{is_live, finalizer, Time}
use k8sgrowthbook_controller.Api.Instance.{GrowthbookInstance}
use k8sgrowthbook_controller.Effects.{ok, err, Error, ret, call, Call, now}
use k8sgrowthbook_controller.Effects.Traces.{Always, Ensures, AllCalls, trace_rules, Ensures-ret}
use k8sgrowthbook_controller.Effects.Traces.{Ensures-bind, Ensures-failing_as, Ensures-fail}
use k8sgrowthbook_controller.Effects.Traces.{
  Ensures-call, Ensures-if, Ensures-attempt, Ensures-then,
}
use k8sgrowthbook_controller.Effects.Traces.{Ensures-else, Ensures-weaken}
use k8sgrowthbook_controller.Controller.Externals.{Externals}
use k8sgrowthbook_controller.Controller.Objects.{patch_status}
use k8sgrowthbook_controller.Controller.Provider.{mongo_db_provider, DatabaseProvider}
use k8sgrowthbook_controller.Controller.Reconciler.{ReconcileResult, conclude, reconcile}
use k8sgrowthbook_controller.Controller.Reconciler.{reconcile_active, reconcile_fetched, no_requeue}
use k8sgrowthbook_controller.Controller.Reconciler.{result_after}
use k8sgrowthbook_controller.Safety.Permissions.{Permitted}
use k8sgrowthbook_controller.Safety.Resources.{add_finalizer-Permitted}
use k8sgrowthbook_controller.Safety.Resources.{remove_finalizer-Permitted}
use k8sgrowthbook_controller.Safety.Handlers.{Keeps, KeepsStop}
use k8sgrowthbook_controller.Safety.Reconciliation.{
  reconcile-May, AllowsAll, managed_if, managed-AllowsAll,
}

-- The result of a run without an error.
abbrev pub expected : GrowthbookInstance → ReconcileResult
expected i =
    if is_live i.object && not i.spec.suspend then result_after i.spec.interval else no_requeue

module _ (upsert delete : GoString → Bool) (connect : Bool) (x : Externals) where
  abbrev May : Call → Type 0
  May = Permitted upsert delete connect

  patch_status-May : (i : GrowthbookInstance) → AllCalls May (patch_status i)
  unfolding patch_status
  patch_status-May i = search trace_rules

  -- What a success ends in, given the instance that comes out.
  abbrev pub outcome : GrowthbookInstance → ReconcileResult
  outcome j = if is_live j.object then result_after j.spec.interval else no_requeue

  pub conclude_ok-May :
      (provider : DatabaseProvider) (start end : Time) (j : GrowthbookInstance)
      → Ensures May (λ r. r ≡ outcome j) Always (conclude x provider start end (ok j))
  unfolding conclude
  conclude_ok-May provider start end j =
      Ensures-if (is_live j.object) _ _
        (λ e. Ensures-call _ _ tt λ _.
          Ensures-bind Always _ _ (Ensures-failing_as Always _ _ (patch_status-May _) (λ _ _. tt))
            λ _ _. Ensures-ret _ (rw e refl))
        (λ e.
          Ensures-bind Always _ _
            (Ensures-failing_as Always _ _
              (remove_finalizer-Permitted x upsert delete connect finalizer j.object) (λ _ _. tt))
            λ _ _. Ensures-ret _ (rw e refl))

  conclude_err-May :
      (Q : ReconcileResult → Type 0) (provider : DatabaseProvider) (start end : Time)
      (j : GrowthbookInstance) (e : Error)
      → Ensures May Q Always (conclude x provider start end (err (j, e)))
  unfolding conclude
  conclude_err-May Q provider start end j e = Ensures-call _ _ tt λ _.
      Ensures-bind Always _ _ (Ensures-failing_as Always _ _ (patch_status-May _) (λ _ _. tt))
        λ _ _. Ensures-fail _ tt

  outcome-Keeps : (i j : GrowthbookInstance) → Keeps i j → outcome j ≡ outcome i
  outcome-Keeps i j k = rw (k.object, k.spec) refl

  reconcile_active-May :
      (i : GrowthbookInstance)
      → AllowsAll upsert delete i
      → connect ≡ true
      → Ensures May (λ r. r ≡ outcome i) Always (reconcile_active x (mongo_db_provider x) i)
  unfolding reconcile_active
  reconcile_active-May i a may =
      Ensures-bind Always _ _
        (Ensures-failing_as Always _ _
          (add_finalizer-Permitted x upsert delete connect finalizer i.object) (λ _ _. tt))
        λ _ _. Ensures-bind Always (call now ret) _ (search trace_rules) λ start _.
          Ensures-attempt (Keeps i) (KeepsStop i) (reconcile x (mongo_db_provider x) i) _
            (reconcile-May upsert delete connect x i a may)
            (λ j k. Ensures-call _ _ tt λ end.
              Ensures-weaken (λ r. r ≡ outcome j) Always _
                (conclude_ok-May (mongo_db_provider x) start end j) (λ r q. q ∙ outcome-Keeps i j k)
                (λ _ _. tt))
            (λ s k.
              Ensures-call _ _ tt λ end.
                conclude_err-May (λ r. r ≡ outcome i) (mongo_db_provider x) start end s.0 s.1)

suspended-expected : (i : GrowthbookInstance) → i.spec.suspend ≡ true → no_requeue ≡ expected i
suspended-expected i e = ground arith

active-expected :
    (i : GrowthbookInstance)
    → i.spec.suspend ≡ false
    → (if is_live i.object then result_after i.spec.interval else no_requeue) ≡ expected i
active-expected i e = ground arith

active-AllowsAll :
    (i : GrowthbookInstance)
    → i.spec.suspend ≡ false
    → AllowsAll
        (managed_if (is_live i.object && not i.spec.suspend))
        (managed_if (i.spec.prune && not i.spec.suspend))
        i
active-AllowsAll i e = managed-AllowsAll _ _ i (λ h. ground arith) (λ h. ground arith)

-- `Reconcile` of an instance that is suspended makes no call at all, of the database, of Kubernetes
-- or of any other kind, and returns without a requeue. Whatever Kubernetes, MongoDB and the clock
-- reply, of another it inserts and updates documents only if the instance is not being deleted and
-- deletes them by ID only if it prunes, and only in the managed collections; it deletes many at
-- once only from the cache of payloads and only if the instance is not being deleted. Where it ends
-- without an error, a live instance that is not suspended is due again after its interval, if it
-- has one, and there is no requeue otherwise.
pub reconcile_fetched-Permitted :
    (x : Externals) (i : GrowthbookInstance)
    → (i.spec.suspend ≡ true → reconcile_fetched x (mongo_db_provider x) (ok i) ≡ ret no_requeue)
      × Ensures
          (Permitted
            (managed_if (is_live i.object && not i.spec.suspend))
            (managed_if (i.spec.prune && not i.spec.suspend))
            (not i.spec.suspend))
          (λ r. r ≡ expected i)
          Always
          (reconcile_fetched x (mongo_db_provider x) (ok i))
unfolding reconcile_fetched
reconcile_fetched-Permitted x i = (
  λ e. rw e refl,
  elim (Bool-cases i.spec.suspend) [
    | inl e ↦ Ensures-then _ _ _ e (Ensures-ret _ (suspended-expected i e))
    | inr e ↦ Ensures-else _ _ _ e (
        Ensures-weaken _ Always _ (reconcile_active-May _ _ _ x i (active-AllowsAll i e) (ap not e))
          (λ r q. q ∙ active-expected i e) (λ _ _. tt))
  ],
)
