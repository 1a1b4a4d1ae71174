-- ===== src/Safety/Reports.antt =====
-- How a status is reported (`patchStatus` in `Reconcile`).
use k8sgrowthbook_controller.Prelude.{◌≡◌, refl, ap, ◌∙◌, ◌⊎◌, inl, inr}
use k8sgrowthbook_controller.Api.Meta.{Object}
use k8sgrowthbook_controller.Api.Instance.{GrowthbookInstance}
use k8sgrowthbook_controller.Effects.{Error, Result, ok, err, Call, Reply, Prog, call, ◌>>=◌}
use k8sgrowthbook_controller.Effects.{failing_as, from_result, done, get_instance}
use k8sgrowthbook_controller.Effects.{patch_instance_status}
use k8sgrowthbook_controller.Effects.Monitors.{Monitor, Obeys}
use k8sgrowthbook_controller.Effects.Runs.{Handler, run, run-call, run-then, run-failing_as}
use k8sgrowthbook_controller.Effects.Runs.{returned}
use k8sgrowthbook_controller.Controller.Externals.{Externals}
use k8sgrowthbook_controller.Controller.Objects.{patch_status, object_key}
use k8sgrowthbook_controller.Controller.Provider.{DatabaseProvider}
use k8sgrowthbook_controller.Controller.Reconciler.{publish, requeue_now, ReconcileResult}

-- The cluster has the instance, and takes patches of its status.
pub record IsReported {S : Type 0} (h : Handler S) (i : GrowthbookInstance) : Type 0 where
  pub latest : S → GrowthbookInstance
  pub gets : (s : S) → h (get_instance (object_key i.object)) s ≡ (ok (latest s), s)
  pub patches :
      (j : GrowthbookInstance) (s : S) → (h (patch_instance_status j (latest s)) s).0 ≡ ok tt

-- How far the report of a status is: the instance is not asked for yet, it is not to be had, it came
-- as it is now, or the patch of its status was asked for.
pub data Publication : Type 0 where
  pending : Publication
  unavailable : Publication
  fetched : GrowthbookInstance → Publication
  published : Publication

abbrev fetching : Result Error GrowthbookInstance → Publication
fetching (ok latest) = fetched latest
fetching (err e) = unavailable

abbrev publish_step : Publication → (c : Call) → Reply c → Publication
publish_step p (get_instance key) r = fetching r
publish_step p (patch_instance_status j latest) r = published
publish_step p c r = p

-- The instance is fetched once, and its status is patched once, against what came.
abbrev PublishAllowed : GrowthbookInstance → Publication → Call → Type 0
PublishAllowed i p (get_instance key) = (p ≡ pending) × (key ≡ object_key i.object)
PublishAllowed i p (patch_instance_status j latest) = p ≡ fetched latest
PublishAllowed i p c = Unit

abbrev pub publishing : GrowthbookInstance → Monitor Publication
publishing i = record { step = publish_step; allowed = PublishAllowed i }

-- The status of an instance that can be had is patched.
abbrev pub IsPublished : Publication → Type 0
IsPublished p = (p ≡ unavailable) ⊎ (p ≡ published)

published-IsPublished :
    (i : GrowthbookInstance) (r : Result (ReconcileResult × Error) ReconcileResult)
    → Obeys (publishing i) IsPublished published (from_result r)
unfolding from_result
published-IsPublished i (ok a) = inr refl
published-IsPublished i (err e) = inr refl

-- A status is published for the instance, whatever follows without a call.
pub publish-IsPublished :
    (x : Externals) (provider : DatabaseProvider) (i j : GrowthbookInstance)
    (r : Result (ReconcileResult × Error) ReconcileResult)
    → j.object ≡ i.object
    → Obeys (publishing i) IsPublished pending (publish x provider j (from_result r))
unfolding patch_status ◌>>=◌ failing_as from_result done
publish-IsPublished x provider i j r e = (
  (refl, ap object_key e),
  elim [
    | err _ ↦ inl refl
    | ok latest ↦ (refl, elim [ err _ ↦ inr refl | ok _ ↦ published-IsPublished i r ])
  ],
)

module _ {S : Type 0} {i : GrowthbookInstance} (h : Handler S) (reported : IsReported h i) where
  pub run-patch_status :
      (j : GrowthbookInstance) (s : S)
      → j.object ≡ i.object
      → run h (patch_status j) s
        ≡ (returned tt, (h (patch_instance_status j (reported.latest s)) s).1)
  unfolding patch_status done from_result ◌>>=◌
  run-patch_status j s e =
      ap
        (λ (o : Object).
          run h
            (call (get_instance (object_key o)) from_result >>= λ latest.
              call (patch_instance_status j latest) done)
            s)
        e
      ∙ run-call h (get_instance (object_key i.object))
          (λ r. from_result r >>= λ latest. call (patch_instance_status j latest) done) s s
          (ok (reported.latest s)) (reported.gets s)
      ∙ ap (λ r. run h (done r) (h (patch_instance_status j (reported.latest s)) s).1)
          (reported.patches j s)

  pub run-publish :
      (x : Externals) (provider : DatabaseProvider) (j : GrowthbookInstance)
      (rest : Prog (ReconcileResult × Error) ReconcileResult) (s : S)
      → j.object ≡ i.object
      → run h (publish x provider j rest) s
        ≡ run h rest (h (patch_instance_status j (reported.latest s)) s).1
  run-publish x provider j rest s e =
      run-then h (failing_as (λ e. (requeue_now, e)) (patch_status j)) (λ _. rest) s _ tt
        (run-failing_as h _ (patch_status j) s _ tt (run-patch_status j s e))
