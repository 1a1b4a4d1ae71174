-- ===== src/Refinement/Handling.antt =====
-- A whole handler in a cluster, whatever the kind of resources: the selector, the list, the
-- registration and the loop.
use mathlib.Core.Path.{subst}
use k8sgrowthbook_controller.Prelude.{◌≡◌, refl, sym, ap, ◌∙◌}
use k8sgrowthbook_controller.Prelude.{Option, List, GoString, map}
use k8sgrowthbook_controller.Api.Meta.{Object, ObjectKey, is_live}
use k8sgrowthbook_controller.Api.Instance.{GrowthbookInstance, GrowthbookInstanceStatus}
use k8sgrowthbook_controller.Effects.{Error, Selector, ◌>>=◌, ◌>>◌, Prog, ret}
use k8sgrowthbook_controller.Effects.Runs.{Handler, run, run-then, run-failing_as, returned}
use k8sgrowthbook_controller.Effects.Runs.{Outcome}
use k8sgrowthbook_controller.Controller.Catalog.{Resource}
use k8sgrowthbook_controller.Controller.Externals.{Externals, Stop}
use k8sgrowthbook_controller.Controller.Resources.{register_live, stopping, for_each}
use k8sgrowthbook_controller.Refinement.Cluster.{IsCluster}
use k8sgrowthbook_controller.Refinement.Registration.{with_status, registering-Registers}
use k8sgrowthbook_controller.Refinement.Loops.{Line, AllReady, AllChange, AllChange-from, Changes}
use k8sgrowthbook_controller.Refinement.Loops.{Does, for_each-AllChange, map_of}

-- A run returns the instance with another status, by way of `give`, and changes the map of documents
-- one resource after the other.
pub record Reconciles {A R B S : Type 0} (line : Line A R) (stored : GoString → S → Option A)
    (i : GrowthbookInstance) (give : GrowthbookInstance → B) (rs : List R)
    (ready : AllReady line rs) (s : S) (o : Outcome Stop B × S) : Type 0 where
  pub status : GrowthbookInstanceStatus
  pub ends : o.0 ≡ returned (give (with_status i status))
  pub changes : AllChange line rs ready (map_of stored s) (map_of stored o.1)

-- What the handlers do.
abbrev pub handling :
    {R B : Type 0}
    → Externals
    → (R → Resource)
    → Prog Error Selector
    → (Selector → Prog Error (List R))
    → (GrowthbookInstance → R → Prog Error Unit)
    → (List R → GrowthbookInstance → B)
    → GrowthbookInstance
    → Prog Stop B
handling x resource selecting listing body give i = do
  selector ← stopping i selecting
  rs ← stopping i (listing selector)
  i' ← register_live x (map resource rs) i
  stopping i' (for_each (body i') rs)
  ret (give rs i')

module _ {A R B S : Type 0} (x : Externals) (h : Handler S) (stored : GoString → S → Option A)
    (finalizers : ObjectKey → S → List GoString)
    (cluster : (obj : Object) → IsCluster h stored finalizers obj) (i : GrowthbookInstance)
    (line : Line A R) (resource : R → Resource) (selecting : Prog Error Selector)
    (listing : Selector → Prog Error (List R)) (body : GrowthbookInstance → R → Prog Error Unit)
    (give : List R → GrowthbookInstance → B) (selector : Selector) (rs : List R)
    (selects : (s : S) → run h selecting s ≡ (returned selector, s))
    (lists : (s : S) → run h (listing selector) s ≡ (returned rs, s)) where
  -- After the registration.
  abbrev pub looping : GrowthbookInstance → Prog Stop B
  looping i' = stopping i' (for_each (body i') rs) >>= λ _. ret (give rs i')

  pub run-handling :
      (s : S)
      → run h (handling x resource selecting listing body give i) s
        ≡ run h (register_live x (map resource rs) i >>= looping) s
  run-handling s =
      run-then h (stopping i selecting) _ s s selector
        (run-failing_as h _ selecting s s selector (selects s))
      ∙ run-then h (stopping i (listing selector)) _ s s rs
          (run-failing_as h _ (listing selector) s s rs (lists s))

  module _
      (one : (status : GrowthbookInstanceStatus) (r : R) (q : line.Ready (line.live r) r) (s : S)
        → Does stored (Changes line r (line.live r) q) s (run h (body (with_status i status) r) s))
      (ready : AllReady line rs) where
    looping-Reconciles :
        (status : GrowthbookInstanceStatus) (s t : S)
        → ((j : GoString) → stored j t ≡ stored j s)
        → Reconciles line stored i (give rs) rs ready s (run h (looping (with_status i status)) t)
    looping-Reconciles status s t k =
        let i' = with_status i status in
        let o = run h (for_each (body i') rs) t in
        let (ends, change) = for_each-AllChange line h stored (body i') (one status) rs ready t in
        subst (Reconciles line stored i (give rs) rs ready s)
          (sym (
            run-then h (stopping i' (for_each (body i') rs)) (λ _. ret (give rs i')) t o.1 tt
              (run-failing_as h _ (for_each (body i') rs) t o.1 tt
                (ap (λ (r : Outcome Error Unit). (r, o.1)) ends))))
          (record {
            status = status;
            ends = refl;
            changes =
                AllChange-from line rs ready (map_of stored t) (map_of stored s) (map_of stored o.1)
                  k change;
          })

    -- If the loop's body does for each resource what the line says, so does the handler for the list,
    -- and it succeeds.
    pub handling-Reconciles :
        (s : S)
        → Reconciles line stored i
            (give rs)
            rs
            ready
            s
            (run h (handling x resource selecting listing body give i) s)
    unfolding register_live
    handling-Reconciles s =
        let r =
          registering-Registers x h stored finalizers cluster i (map resource rs) (is_live i.object)
            s in
        subst (Reconciles line stored i (give rs) rs ready s)
          (sym (
            run-handling s
            ∙ run-then h (register_live x (map resource rs) i) looping s r.world
                (with_status i r.status) r.run_is))
          (looping-Reconciles r.status s r.world r.keeps)
