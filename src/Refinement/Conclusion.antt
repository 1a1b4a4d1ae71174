-- ===== src/Refinement/Conclusion.antt =====
-- How a `Reconcile` that succeeded ends, in such a world.
use k8sgrowthbook_controller.Prelude.{◌≡◌, refl, sym, ap, ◌∙◌, str, inl, inr}
use k8sgrowthbook_controller.Prelude.{true, false, if◌then◌else◌, Bool-cases}
use k8sgrowthbook_controller.Api.Meta.{is_live, finalizer, Time}
use k8sgrowthbook_controller.Api.Meta.{synchronized_reason}
use k8sgrowthbook_controller.Api.Instance.{GrowthbookInstance, GrowthbookInstanceStatus}
use k8sgrowthbook_controller.Api.Instance.{growthbook_instance_ready, set_resource_condition}
use k8sgrowthbook_controller.Effects.{Error, ok, Prog, ◌>>=◌}
use k8sgrowthbook_controller.Effects.{patch_instance_status, record_event}
use k8sgrowthbook_controller.Effects.{failing_as}
use k8sgrowthbook_controller.Effects.Runs.{Handler, run, run-then, run-failing_as}
use k8sgrowthbook_controller.Effects.Runs.{returned, Outcome}
use k8sgrowthbook_controller.Controller.Externals.{Externals}
use k8sgrowthbook_controller.Controller.Objects.{object_key, remove_finalizer}
use k8sgrowthbook_controller.Controller.Objects.{patch_status, with_finalizers}
use k8sgrowthbook_controller.Controller.Provider.{mongo_db_provider}
use k8sgrowthbook_controller.Controller.Reconciler.{conclude, ReconcileResult}
use k8sgrowthbook_controller.Controller.Reconciler.{no_requeue, result_after, stamped}
use k8sgrowthbook_controller.Refinement.Cluster.{run-patch, patched_world}
use k8sgrowthbook_controller.Refinement.Registration.{with_status}
use k8sgrowthbook_controller.Safety.Reports.{IsReported, run-patch_status}
use k8sgrowthbook_controller.Refinement.World.{Contents, IsWorld}
use k8sgrowthbook_controller.Refinement.Convergence.{Estate}
use k8sgrowthbook_controller.Refinement.Connected.{IsReachable, database_of}

-- When an instance is due again.
abbrev pub due : GrowthbookInstance → ReconcileResult
due i = if is_live i.object then result_after i.spec.interval else no_requeue

module _ {S : Type 0} (x : Externals) (h : Handler S) (c : Contents S) (i : GrowthbookInstance)
    (reachable : IsReachable x h i) (world : IsWorld x (database_of reachable) h c)
    (estate : Estate x h i) (reported : IsReported h i) where
  abbrev pub concluding :
      Time → Time → GrowthbookInstance → Prog (ReconcileResult × Error) ReconcileResult
  concluding start end j = conclude x (mongo_db_provider x) start end (ok j)

  -- What is reported of an instance that came out with a status.
  abbrev report : Time → Time → GrowthbookInstanceStatus → GrowthbookInstance
  report start end status =
      growthbook_instance_ready x.set_status_condition
        (stamped x (mongo_db_provider x) start end (with_status i status)) synchronized_reason
        (str "instance successfully reconciled")

  report-object :
      (start end : Time) (status : GrowthbookInstanceStatus)
      → (report start end status).object ≡ i.object
  unfolding growthbook_instance_ready set_resource_condition
  report-object start end status = refl

  conclude-live :
      (start end : Time) (status : GrowthbookInstanceStatus) (s : S)
      → is_live i.object ≡ true
      → (run h (concluding start end (with_status i status)) s).0
        ≡ returned (result_after i.spec.interval)
  unfolding conclude ◌>>=◌
  conclude-live start end status s e =
      let j = report start end status in
      let t =
        (h
          (record_event (stamped x (mongo_db_provider x) start end (with_status i status))
            (str "Normal") (str "info") (str "instance successfully reconciled"))
          s).1 in
      rw e (
        ap (λ (o : Outcome (ReconcileResult × Error) ReconcileResult × S). o.0)
          (run-then h (failing_as _ (patch_status j)) _ t
            (h (patch_instance_status j (reported.latest t)) t).1 tt
            (run-failing_as h _ (patch_status j) t _ tt
              (run-patch_status h reported j t (report-object start end status)))))

  conclude-dying :
      (start end : Time) (status : GrowthbookInstanceStatus) (s : S)
      → is_live i.object ≡ false
      → run h (concluding start end (with_status i status)) s ≡ (
        returned no_requeue,
        patched_world
            (world.cluster i.object)
            (x.remove_finalizer i.object.object_meta.finalizers finalizer)
            s,
      )
  unfolding conclude remove_finalizer
  conclude-dying start end status s e = rw e (
      run-then h (failing_as _ (remove_finalizer x finalizer i.object)) _ s _ tt (
        run-failing_as h _ (remove_finalizer x finalizer i.object) s _ tt (
          run-patch (world.cluster i.object)
            (x.remove_finalizer i.object.object_meta.finalizers finalizer) s)))

  -- It ends without an error, and the instance is due again as it should.
  pub concluding-ends :
      (start end : Time) (status : GrowthbookInstanceStatus) (s : S)
      → (run h (concluding start end (with_status i status)) s).0 ≡ returned (due i)
  concluding-ends start end status s = elim (Bool-cases (is_live i.object)) [
    | inl e ↦
        conclude-live start end status s e
        ∙ ap (λ b. returned (if b then result_after i.spec.interval else no_requeue)) (sym e)
    | inr e ↦
        ap (λ (o : Outcome (ReconcileResult × Error) ReconcileResult × S). o.0)
          (conclude-dying start end status s e)
        ∙ ap (λ b. returned (if b then result_after i.spec.interval else no_requeue)) (sym e)
  ]

  -- An instance that is being deleted loses the finalizer.
  pub concluding-released :
      (start end : Time) (status : GrowthbookInstanceStatus) (s : S)
      → is_live i.object ≡ false
      → c.finalizers (object_key i.object) (run h (concluding start end (with_status i status)) s).1
        ≡ x.remove_finalizer i.object.object_meta.finalizers finalizer
  unfolding object_key
  concluding-released start end status s e =
      ap
        (λ (o : Outcome (ReconcileResult × Error) ReconcileResult × S).
          c.finalizers (object_key i.object) o.1)
        (conclude-dying start end status s e)
      ∙ (world.cluster i.object).patched
          (with_finalizers i.object (x.remove_finalizer i.object.object_meta.finalizers finalizer))
          s
