-- ===== src/Refinement/Requests.antt =====
-- A whole `Reconcile` in such a world: the instance is fetched, reconciled and reported.
use mathlib.Core.Path.{subst}
use k8sgrowthbook_controller.Prelude.{◌≡◌, sym, ap, ◌∙◌}
use k8sgrowthbook_controller.Prelude.{true, false, if◌then◌else◌}
use k8sgrowthbook_controller.Api.Meta.{ObjectKey, is_live, finalizer, Time}
use k8sgrowthbook_controller.Api.Instance.{GrowthbookInstance, GrowthbookInstanceStatus}
use k8sgrowthbook_controller.Effects.{Error, ok, Prog, ret, call, ◌>>=◌}
use k8sgrowthbook_controller.Effects.{get_instance, now}
use k8sgrowthbook_controller.Effects.{attempt, failing_as}
use k8sgrowthbook_controller.Effects.Runs.{Handler, run, run-call, run-then, run-failing_as}
use k8sgrowthbook_controller.Effects.Runs.{run-attempt, returned, Outcome}
use k8sgrowthbook_controller.Controller.Externals.{Externals}
use k8sgrowthbook_controller.Controller.Objects.{object_key, add_finalizer}
use k8sgrowthbook_controller.Controller.Provider.{mongo_db_provider}
use k8sgrowthbook_controller.Controller.Reconciler.{reconcile, reconcile_active, reconcile_fetched}
use k8sgrowthbook_controller.Controller.Reconciler.{reconcile_request, conclude, ReconcileResult}
use k8sgrowthbook_controller.Controller.Reconciler.{no_requeue}
use k8sgrowthbook_controller.Safety.Requests.{conclude_ok-May}
use k8sgrowthbook_controller.Safety.Resources.{add_finalizer-Permitted}
use k8sgrowthbook_controller.Refinement.Cluster.{run-add_finalizer}
use k8sgrowthbook_controller.Refinement.Registration.{with_status}
use k8sgrowthbook_controller.Safety.Reports.{IsReported}
use k8sgrowthbook_controller.Refinement.World.{Contents, IsWorld}
use k8sgrowthbook_controller.Refinement.Convergence.{
  Estate, Converges, Converges-from, Converges-to,
}
use k8sgrowthbook_controller.Refinement.Convergence.{IsSame}
use k8sgrowthbook_controller.Refinement.Connected.{
  IsReachable, database_of, run-IsSame, call-IsSame,
}
use k8sgrowthbook_controller.Refinement.Connected.{reconcile-Converges}
use k8sgrowthbook_controller.Refinement.Stability.{IsDistinct, IsStable, Converges-again}
use k8sgrowthbook_controller.Refinement.Conclusion.{
  due, concluding, concluding-ends, concluding-released,
}

module _ {S : Type 0} (x : Externals) (h : Handler S) (c : Contents S) (i : GrowthbookInstance)
    (reachable : IsReachable x h i) (world : IsWorld x (database_of reachable) h c)
    (estate : Estate x h i) (reported : IsReported h i) where
  -- A run ends without an error, with the instance due again as it should. All resources have had their
  -- effect on the documents, and an instance that is being deleted has lost its finalizer.
  pub record Reconciled (s : S) (o : Outcome (ReconcileResult × Error) ReconcileResult × S)
      : Type 0 where
    pub ends : o.0 ≡ returned (due i)
    pub converges : Converges x h c i estate s o.1
    pub released :
        is_live i.object ≡ false
        → c.finalizers (object_key i.object) o.1
          ≡ x.remove_finalizer i.object.object_meta.finalizers finalizer

  concluding-Reconciled :
      (start end : Time) (status : GrowthbookInstanceStatus) (s t : S)
      → Converges x h c i estate s t
      → Reconciled s (
          run h
            (concluding x h c i reachable world estate reported start end (with_status i status))
            t)
  concluding-Reconciled start end status s t p = record {
    ends = concluding-ends x h c i reachable world estate reported start end status t;
    converges =
        Converges-to x h c i estate s t _
          (run-IsSame x world
            (concluding x h c i reachable world estate reported start end (with_status i status))
            (λ upsert delete.
              conclude_ok-May upsert delete true x (mongo_db_provider x) start end
                (with_status i status))
            t)
          p;
    released = concluding-released x h c i reachable world estate reported start end status t;
  }

  Reconciled-from :
      (r s : S) (o : Outcome (ReconcileResult × Error) ReconcileResult × S)
      → IsSame c r s
      → Reconciled s o
      → Reconciled r o
  Reconciled-from r s o e p = record {
    ends = p.ends;
    converges = Converges-from x h c i estate r s o.1 e p.converges;
    released = p.released;
  }

  module _ (from : GrowthbookInstanceStatus) where
    -- After the finalizer.
    abbrev timed : Prog (ReconcileResult × Error) ReconcileResult
    timed = call now ret >>= λ start.
        attempt (reconcile x (mongo_db_provider x) (with_status i from))
          λ result. call now λ end. conclude x (mongo_db_provider x) start end result

    timed-Reconciled : (s : S) → Reconciled s (run h timed s)
    unfolding ◌>>=◌
    timed-Reconciled s =
        let start = (h now s).0 in
        let s1 = (h now s).1 in
        let (status, t, e, p) = reconcile-Converges x h c i reachable world estate from s1 in
        let t1 = (h now t).1 in
        subst (Reconciled s)
          (sym (
            run-attempt h (reconcile x (mongo_db_provider x) (with_status i from))
              (λ result. call now λ end. conclude x (mongo_db_provider x) start end result) s1 t
              (with_status i status) e))
          (concluding-Reconciled start (h now t).0 status s t1 (
            Converges-to x h c i estate s t t1 (call-IsSame x world now (λ _ _. tt) t)
              (Converges-from x h c i estate s s1 t (call-IsSame x world now (λ _ _. tt) s) p)))

    active-Reconciled :
        (s : S)
        → Reconciled s (run h (reconcile_active x (mongo_db_provider x) (with_status i from)) s)
    unfolding reconcile_active
    active-Reconciled s =
        let (t, added, _) = run-add_finalizer (world.cluster i.object) x finalizer s in
        let same : IsSame c s t =
          subst (λ (o : Outcome Error Unit × S). IsSame c s o.1) added
            (run-IsSame x world (add_finalizer x finalizer i.object)
              (λ upsert delete. add_finalizer-Permitted x upsert delete true finalizer i.object)
              s) in
        subst (Reconciled s)
          (sym (
            run-then h (failing_as (λ e. (no_requeue, e)) (add_finalizer x finalizer i.object))
              (λ _. timed) s t tt
              (run-failing_as h _ (add_finalizer x finalizer i.object) s t tt added)))
          (Reconciled-from s t (run h timed t) same (timed-Reconciled t))

    -- In a world of four shelves that are apart, with a cache of payloads that can be cleared and a
    -- library that hashes every password under every salt, with a cluster that has the instance under
    -- the key, takes patches of objects and of its status, and lists its resources, each of them
    -- ready, and with MongoDB in reach at a URI that can be parsed, `Reconcile` of an instance that is
    -- not suspended ends without an error. A live instance is due again after its interval, if it has
    -- one; one that is being deleted is not, and has its finalizers without that of the controller.
    -- Each map of documents changes as the handlers change it, by the users, the organizations, and
    -- the features and clients of each of them, one after the other, and by nothing else.
    pub reconcile_request-Reconciled :
        (key : ObjectKey) (s : S)
        → i.spec.suspend ≡ false
        → h (get_instance key) s ≡ (ok (with_status i from), s)
        → Reconciled s (run h (reconcile_request x (mongo_db_provider x) key) s)
    unfolding reconcile_request reconcile_fetched
    reconcile_request-Reconciled key s active fetched =
        subst (Reconciled s)
          (sym (
            run-call h (get_instance key) (reconcile_fetched x (mongo_db_provider x)) s s
              (ok (with_status i from)) fetched
            ∙ ap
                (λ b.
                  run h
                    (if b
                      then ret no_requeue
                      else reconcile_active x (mongo_db_provider x) (with_status i from))
                    s)
                active))
          (active-Reconciled s)

  -- If in such a world no two users, no two organizations and no two clients have an ID in common, a
  -- second `Reconcile`, of the instance with any other status, ends without an error too and leaves
  -- all documents of users, organizations and connections as they were after the first.
  pub reconcile_request_settles :
      (from next : GrowthbookInstanceStatus) (key : ObjectKey) (s : S)
      → i.spec.suspend ≡ false
      → IsDistinct x h i estate
      → h (get_instance key) s ≡ (ok (with_status i from), s)
      → let t = (run h (reconcile_request x (mongo_db_provider x) key) s).1 in
        h (get_instance key) t ≡ (ok (with_status i next), t)
        → ((run h (reconcile_request x (mongo_db_provider x) key) t).0 ≡ returned (due i))
          × IsStable c t (run h (reconcile_request x (mongo_db_provider x) key) t).1
  reconcile_request_settles from next key s active distinct fetched fetched_again =
      let t = (run h (reconcile_request x (mongo_db_provider x) key) s).1 in
      let first = reconcile_request-Reconciled from key s active fetched in
      let second = reconcile_request-Reconciled next key t active fetched_again in
      (
        second.ends,
        Converges-again x h i c estate s t
            (run h (reconcile_request x (mongo_db_provider x) key) t).1 distinct first.converges
            second.converges,
      )
