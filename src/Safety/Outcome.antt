-- ===== src/Safety/Outcome.antt =====
-- How `Reconcile` ends: the status that it reports, the finalizer, and the requeueing.
use k8sgrowthbook_controller.Prelude.{true, false, ◌≡◌, refl, Option, none, some, List, ap}
use k8sgrowthbook_controller.Prelude.{[], ◌∷◌, GoString, str, text_eq, ◌==◌, if◌then◌else◌}
use k8sgrowthbook_controller.Api.Meta.{Condition, ready_condition, condition_true, condition_false}
use k8sgrowthbook_controller.Api.Meta.{synchronized_reason, failed_reason, finalizer, is_live, Time}
use k8sgrowthbook_controller.Api.Instance.{GrowthbookInstance, SetStatusCondition}
use k8sgrowthbook_controller.Api.Instance.{growthbook_instance_ready, growthbook_instance_not_ready}
use k8sgrowthbook_controller.Api.Instance.{set_resource_condition}
use k8sgrowthbook_controller.Effects.{Error, error_text, ok, err, Call, ret, fail}
use k8sgrowthbook_controller.Effects.{from_result, record_event}
use k8sgrowthbook_controller.Effects.Monitors.{Obeys}
use k8sgrowthbook_controller.Effects.Runs.{Handler, run}
use k8sgrowthbook_controller.Effects.Runs.{Outcome, returned, failed}
use k8sgrowthbook_controller.Effects.{patch_object, patch_instance_status, mongo_insert_one}
use k8sgrowthbook_controller.Effects.{mongo_update_one, mongo_delete_one, mongo_delete_many}
use k8sgrowthbook_controller.Effects.Traces.{Ensures, Always, AllCalls, trace_rules, Ensures-bind}
use k8sgrowthbook_controller.Effects.Traces.{
  Ensures-call, Ensures-failing_as, Ensures-fail, Ensures-ret,
}
use k8sgrowthbook_controller.Effects.Traces.{Ensures-then, Ensures-else}
use k8sgrowthbook_controller.Controller.Externals.{Externals}
use k8sgrowthbook_controller.Controller.Objects.{
  patch_status, with_finalizers, patch, remove_finalizer,
}
use k8sgrowthbook_controller.Controller.Provider.{DatabaseProvider}
use k8sgrowthbook_controller.Safety.Reports.{IsReported, publishing, pending, IsPublished}
use k8sgrowthbook_controller.Safety.Reports.{publish-IsPublished, run-publish}
use k8sgrowthbook_controller.Controller.Reconciler.{
  conclude, requeue_now, no_requeue, ReconcileResult,
}
use k8sgrowthbook_controller.Controller.Reconciler.{result_after, stamped}

-- The condition of a type.
abbrev pub condition_of : GoString → List Condition → Option Condition
condition_of type [] = none
condition_of type (c ∷ cs) = if c.type == type then some c else condition_of type cs

-- `SetStatusCondition` sets the condition of the new one's type to it.
abbrev pub Sets : SetStatusCondition → Type 0
Sets set = (cs : List Condition) (c : Condition) → condition_of c.type (set cs c) ≡ some c

abbrev ready_of : GrowthbookInstance → Option Condition
ready_of i = condition_of ready_condition i.status.conditions

abbrev pub synchronized : Condition
synchronized = record {
  type = ready_condition;
  status = condition_true;
  reason = synchronized_reason;
  message = str "instance successfully reconciled";
}

abbrev pub failed_with : Error → Condition
failed_with e = record {
  type = ready_condition;
  status = condition_false;
  reason = failed_reason;
  message = error_text e;
}

-- A status that reports the condition, for the generation of the instance.
pub record IsReport (i : GrowthbookInstance) (c : Condition) (j : GrowthbookInstance) : Type 0 where
  pub ready : ready_of j ≡ some c
  pub generation : j.status.observed_generation ≡ i.object.object_meta.generation
  pub catalog : j.status.sub_resource_catalog ≡ i.status.sub_resource_catalog
  pub spec : j.spec ≡ i.spec

-- No document is written; the status patched is a report; metadata are patched if `unbound`.
abbrev pub Reporting : GrowthbookInstance → Condition → Type 0 → Call → Type 0
Reporting i c unbound (patch_instance_status j latest) = IsReport i c j
Reporting i c unbound (patch_object obj latest) = unbound
Reporting i c unbound (mongo_insert_one _ _) = ⊥
Reporting i c unbound (mongo_update_one _ _ _) = ⊥
Reporting i c unbound (mongo_delete_one _ _) = ⊥
Reporting i c unbound (mongo_delete_many _ _) = ⊥
Reporting i c unbound _ = Unit

-- The only call that changes something takes the controller's finalizer off the instance.
abbrev pub Releasing : Externals → GrowthbookInstance → Call → Type 0
Releasing x i (patch_instance_status j latest) = ⊥
Releasing x i (patch_object obj latest) =
    obj ≡ with_finalizers i.object (x.remove_finalizer i.object.object_meta.finalizers finalizer)
Releasing x i (mongo_insert_one _ _) = ⊥
Releasing x i (mongo_update_one _ _ _) = ⊥
Releasing x i (mongo_delete_one _ _) = ⊥
Releasing x i (mongo_delete_many _ _) = ⊥
Releasing x i _ = Unit

remove_finalizer-Releasing :
    (x : Externals) (i : GrowthbookInstance)
    → AllCalls (Releasing x i) (remove_finalizer x finalizer i.object)
unfolding remove_finalizer patch
remove_finalizer-Releasing x i = search trace_rules

module _ (x : Externals) (provider : DatabaseProvider) (sets : Sets x.set_status_condition)
    (start end : Time) (i : GrowthbookInstance) where
  failure-IsReport :
      (e : Error)
      → IsReport i (failed_with e) (
          growthbook_instance_not_ready x.set_status_condition
            (stamped x provider start end i)
            failed_reason
            (error_text e))
  unfolding growthbook_instance_not_ready
  failure-IsReport e = record {
    ready = sets i.status.conditions (failed_with e);
    generation = refl;
    catalog = refl;
    spec = refl;
  }

  success-IsReport : IsReport i synchronized (
      growthbook_instance_ready x.set_status_condition
        (stamped x provider start end i)
        synchronized_reason
        (str "instance successfully reconciled"))
  unfolding growthbook_instance_ready
  success-IsReport = record {
    ready = sets i.status.conditions synchronized;
    generation = refl;
    catalog = refl;
    spec = refl;
  }

  patch_status-Reporting :
      (c : Condition) (unbound : Type 0) (j : GrowthbookInstance)
      → IsReport i c j
      → AllCalls (Reporting i c unbound) (patch_status j)
  unfolding patch_status
  patch_status-Reporting c unbound j h = search (trace_rules, h)

  -- After a failed reconciliation `Reconcile` never returns without an error, asks for a requeue,
  -- patches no finalizer and writes no document. It fetches the instance and, if that comes, patches
  -- its status once, and that status says, for the instance's generation and with the catalog as far
  -- as it got, that it is not ready, for the error's text. In a cluster that has the instance and
  -- takes patches of its status the error that is returned is that of the reconciliation. This
  -- supposes that `SetStatusCondition` sets the condition of its type.
  pub conclude_failure :
      {S : Type 0} (h : Handler S) (reported : IsReported h i) (s : S) (e : Error)
      → Ensures
          (Reporting i (failed_with e) ⊥)
          (λ r. ⊥)
          (λ s. s.0 ≡ requeue_now)
          (conclude x provider start end (err (i, e)))
        × Obeys (publishing i) IsPublished pending (conclude x provider start end (err (i, e)))
        × ((run h (conclude x provider start end (err (i, e))) s).0 ≡ failed (requeue_now, e))
  unfolding conclude growthbook_instance_not_ready set_resource_condition from_result
  conclude_failure {S = S} h reported s e =
      let j =
        growthbook_instance_not_ready x.set_status_condition (stamped x provider start end i)
          failed_reason (error_text e) in
      let event =
        record_event (stamped x provider start end i) (str "Normal") (str "error") (error_text e) in
      (
        Ensures-call _ _ tt λ _.
            Ensures-bind Always _ _
              (Ensures-failing_as Always _ _
                (patch_status-Reporting (failed_with e) ⊥ _ (failure-IsReport e)) (λ e _. refl))
              λ _ _. Ensures-fail _ refl,
        (tt, λ _. publish-IsPublished x provider i j (err (requeue_now, e)) refl),
        ap (λ (o : Outcome _ ReconcileResult × S). o.0)
            (run-publish h reported x provider j (fail (requeue_now, e)) (h event s).1 refl),
      )

  -- After a successful one of a live instance no finalizer is patched and no document written.
  -- `Reconcile` fetches the instance and, if that comes, patches its status once, and that status
  -- says, for the instance's generation and with its catalog, that it is ready. The next is asked for
  -- after the instance's interval, or at once with an error; in a cluster that has the instance and
  -- takes patches of its status it ends without an error.
  pub conclude_success :
      {S : Type 0} (h : Handler S) (reported : IsReported h i) (s : S)
      → is_live i.object ≡ true
      → Ensures
          (Reporting i synchronized ⊥)
          (λ r. r ≡ result_after i.spec.interval)
          (λ s. s.0 ≡ requeue_now)
          (conclude x provider start end (ok i))
        × Obeys (publishing i) IsPublished pending (conclude x provider start end (ok i))
        × ((run h (conclude x provider start end (ok i)) s).0
            ≡ returned (result_after i.spec.interval))
  unfolding conclude growthbook_instance_ready set_resource_condition from_result
  conclude_success {S = S} h reported s live =
      let j =
        growthbook_instance_ready x.set_status_condition (stamped x provider start end i)
          synchronized_reason (str "instance successfully reconciled") in
      let event =
        record_event (stamped x provider start end i) (str "Normal") (str "info")
          (str "instance successfully reconciled") in
      (
        Ensures-then _ _ _ live (
            Ensures-call _ _ tt λ _.
              Ensures-bind Always _ _
                (Ensures-failing_as Always _ _
                  (patch_status-Reporting synchronized ⊥ _ success-IsReport) (λ e _. refl))
                λ _ _. Ensures-ret _ refl),
        rw live
            (tt, λ _. publish-IsPublished x provider i j (ok (result_after i.spec.interval)) refl),
        rw live (
            ap (λ (o : Outcome _ ReconcileResult × S). o.0)
              (run-publish h reported x provider j (ret (result_after i.spec.interval))
                (h event s).1 refl)),
      )

  -- After a successful one of an instance that is being deleted no status is patched and no document
  -- written, the object that is patched has the controller's finalizer taken off, and there is no
  -- requeue, with or without an error.
  pub conclude_deletion :
      is_live i.object ≡ false
      → Ensures
          (Releasing x i)
          (λ r. r ≡ no_requeue)
          (λ s. s.0 ≡ no_requeue)
          (conclude x provider start end (ok i))
  unfolding conclude
  conclude_deletion h = Ensures-else _ _ _ h (
      Ensures-bind Always _ _
        (Ensures-failing_as Always _ _ (remove_finalizer-Releasing x i) (λ e _. refl))
        λ _ _. Ensures-ret _ refl)
