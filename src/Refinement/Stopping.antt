-- ===== src/Refinement/Stopping.antt =====
-- What a resource that fails leaves behind: a handler ends at the first one, and so does `reconcile`.
use mathlib.Core.Path.{subst}
use k8sgrowthbook_controller.Prelude.{
  ◌≡◌, refl, sym, ap, ◌∙◌, Option, some, List, [], ◌∷◌, ◌++◌, map,
}
use k8sgrowthbook_controller.Prelude.{GoString, str, text_eq, true}
use k8sgrowthbook_controller.Api.Meta.{Object, ObjectKey, SecretReference, is_live}
use k8sgrowthbook_controller.Api.User.{GrowthbookUser}
use k8sgrowthbook_controller.Api.Instance.{GrowthbookInstance, GrowthbookInstanceStatus}
use k8sgrowthbook_controller.Effects.{Error, ok, err, wrapped, Selector, Prog, ret, call}
use k8sgrowthbook_controller.Effects.{get_secret as get_secret_call, list_users, Database, ◌>>=◌}
use k8sgrowthbook_controller.Effects.{failing_as, from_result}
use k8sgrowthbook_controller.Effects.Runs.{Handler, run, run-then, run-call}
use k8sgrowthbook_controller.Effects.Runs.{run-failed, run-failed_as, Outcome, returned, failed}
use k8sgrowthbook_controller.Controller.Catalog.{Resource, user_resource}
use k8sgrowthbook_controller.Controller.Externals.{Externals, Stop}
use k8sgrowthbook_controller.Controller.Resources.{register_live, stopping, for_each, both_live}
use k8sgrowthbook_controller.Controller.Resources.{selector_of}
use k8sgrowthbook_controller.Controller.Secrets.{
  get_optional_username_password, get_secret, field_or,
}
use k8sgrowthbook_controller.Controller.Secrets.{field_or_empty}
use k8sgrowthbook_controller.Controller.Users.{reconcile_user, reconcile_users, upsert_user}
use k8sgrowthbook_controller.Controller.Reconciler.{reconcile_connected, while_doing}
use k8sgrowthbook_controller.Refinement.Cluster.{IsCluster}
use k8sgrowthbook_controller.Refinement.Registration.{with_status, registering-Registers}
use k8sgrowthbook_controller.Refinement.Loops.{Line, AllReady, AllChange, AllChange-from, Changes}
use k8sgrowthbook_controller.Refinement.Loops.{Does, for_each_stops, map_of}
use k8sgrowthbook_controller.Refinement.Handling.{handling, looping, run-handling}
use k8sgrowthbook_controller.Refinement.Selecting.{run-selector_of}
use k8sgrowthbook_controller.Refinement.Population.{user_line, one_user}
use k8sgrowthbook_controller.Refinement.Frames.{reconcile_users_spares}
use k8sgrowthbook_controller.Refinement.World.{Contents, IsWorld}

-- A run fails with the instance with another status beside the error, after the resources have changed
-- the map of documents one after the other.
pub record Stops {A R B S : Type 0} (line : Line A R) (stored : GoString → S → Option A)
    (i : GrowthbookInstance) (rs : List R) (ready : AllReady line rs) (e : Error) (s : S)
    (o : Outcome Stop B × S) : Type 0 where
  pub status : GrowthbookInstanceStatus
  pub ends : o.0 ≡ failed (with_status i status, e)
  pub changes : AllChange line rs ready (map_of stored s) (map_of stored o.1)

module _ {A R B S : Type 0} (x : Externals) (h : Handler S) (stored : GoString → S → Option A)
    (finalizers : ObjectKey → S → List GoString)
    (cluster : (obj : Object) → IsCluster h stored finalizers obj) (i : GrowthbookInstance)
    (line : Line A R) (resource : R → Resource) (selecting : Prog Error Selector)
    (listing : Selector → Prog Error (List R)) (body : GrowthbookInstance → R → Prog Error Unit)
    (give : List R → GrowthbookInstance → B) (selector : Selector) (rs : List R) (r : R)
    (rest : List R) (selects : (s : S) → run h selecting s ≡ (returned selector, s))
    (lists : (s : S) → run h (listing selector) s ≡ (returned (rs ++ r ∷ rest), s))
    (one : (status : GrowthbookInstanceStatus) (r : R) (q : line.Ready (line.live r) r) (s : S)
      → Does stored (Changes line r (line.live r) q) s (run h (body (with_status i status) r) s))
    (ready : AllReady line rs) (e : Error)
    (fails : (status : GrowthbookInstanceStatus) (s : S)
      → run h (body (with_status i status) r) s ≡ (failed e, s)) where
  abbrev loop : GrowthbookInstance → Prog Stop B
  loop =
      looping x h stored finalizers cluster i line resource selecting listing body give selector
        (rs ++ r ∷ rest) selects lists

  loop-Stops :
      (status : GrowthbookInstanceStatus) (s t : S)
      → ((j : GoString) → stored j t ≡ stored j s)
      → Stops line stored i rs ready e s (run h (loop (with_status i status)) t)
  loop-Stops status s t k =
      let i' = with_status i status in
      let o = run h (for_each (body i') (rs ++ r ∷ rest)) t in
      let (ends, change) =
        for_each_stops line h stored (body i') (one status) rs r rest ready e (fails status) t in
      subst (Stops line stored i rs ready e s)
        (sym (
          run-failed h (stopping i' (for_each (body i') (rs ++ r ∷ rest))) _ t o.1 (i', e)
            (run-failed_as h _ (for_each (body i') (rs ++ r ∷ rest)) t o.1 e
              (ap (λ (q : Outcome Error Unit). (q, o.1)) ends))))
        (record {
          status = status;
          ends = refl;
          changes =
              AllChange-from line rs ready (map_of stored t) (map_of stored s) (map_of stored o.1) k
                change;
        })

  -- A handler whose body fails for a resource, and leaves the world alone then, fails so.
  pub handling-Stops :
      (s : S)
      → Stops line stored i rs ready e s
          (run h (handling x resource selecting listing body give i) s)
  unfolding register_live
  handling-Stops s =
      let g =
        registering-Registers x h stored finalizers cluster i (map resource (rs ++ r ∷ rest))
          (is_live i.object) s in
      subst (Stops line stored i rs ready e s)
        (sym (
          run-handling x h stored finalizers cluster i line resource selecting listing body give
            selector (rs ++ r ∷ rest) selects lists s
          ∙ run-then h (register_live x (map resource (rs ++ r ∷ rest)) i) loop s g.world
              (with_status i g.status) g.run_is))
        (loop-Stops g.status s g.world g.keeps)

module _ {S : Type 0} (x : Externals) (db : Database) (h : Handler S) (i : GrowthbookInstance)
    (u : GrowthbookUser) (ref : SecretReference) (missing : Error)
    (stays : both_live i u.object ≡ true) (named_secret : u.spec.secret ≡ some ref)
    (absent : (s : S)
      → h
          (get_secret_call (record { namespace = i.object.object_meta.namespace; name = ref.name }))
          s
        ≡ (err missing, s)) where
  abbrev not_found : Error
  not_found = wrapped (str "referencing secret was not found") missing

  run-credentials :
      (s : S) → run h (get_optional_username_password i u.spec.secret) s ≡ (failed not_found, s)
  unfolding get_optional_username_password get_secret failing_as from_result ◌>>=◌
  run-credentials s = rw named_secret (
      run-call h
        (get_secret_call (record { namespace = i.object.object_meta.namespace; name = ref.name }))
        (λ r.
          failing_as (wrapped (str "referencing secret was not found")) (from_result r)
          >>= λ secret.
              field_or (str "defined password field not found in secret") secret ref.password_field
              >>= λ pw. ret (field_or_empty secret ref.user_field, pw))
        s s (err missing) (absent s))

  pub run-reconcile_user : (s : S) → run h (reconcile_user x db i u) s ≡ (failed not_found, s)
  unfolding reconcile_user upsert_user
  run-reconcile_user s = rw stays (
      run-failed h (get_optional_username_password i u.spec.secret) _ s s not_found
        (run-credentials s))

module _ {S : Type 0} (x : Externals) (db : Database) (h : Handler S) (c : Contents S)
    (world : IsWorld x db h c) (i : GrowthbookInstance) (selector : Selector)
    (us : List GrowthbookUser) (u : GrowthbookUser) (rest : List GrowthbookUser)
    (selects : x.label_selector_as_selector i.spec.resource_selector ≡ ok selector)
    (listed : (s : S)
      → h (list_users i.object.object_meta.namespace selector) s ≡ (ok (us ++ u ∷ rest), s))
    (ready : AllReady (user_line x h i) us) (ref : SecretReference) (missing : Error)
    (stays : both_live i u.object ≡ true) (named_secret : u.spec.secret ≡ some ref)
    (absent : (s : S)
      → h
          (get_secret_call (record { namespace = i.object.object_meta.namespace; name = ref.name }))
          s
        ≡ (err missing, s)) where
  -- A run fails with the instance with another status beside the error about the secret. The users
  -- before the one without it have had their effect, and all other documents are as they were.
  pub record StopsAtUser (s : S) (o : Outcome Stop GrowthbookInstance × S) : Type 0 where
    pub status : GrowthbookInstanceStatus
    pub ends :
        o.0
        ≡ failed (
          with_status i status,
          wrapped
              (str "failed reconciling users")
              (wrapped (str "referencing secret was not found") missing),
        )
    pub users : AllChange (user_line x h i) us ready (map_of c.user_of s) (map_of c.user_of o.1)
    pub organizations : (j : GoString) → c.organization_of j o.1 ≡ c.organization_of j s
    pub features : (j : GoString) → c.feature_of j o.1 ≡ c.feature_of j s
    pub connections : (j : GoString) → c.connection_of j o.1 ≡ c.connection_of j s

  abbrev missing_secret : Error
  missing_secret = wrapped (str "referencing secret was not found") missing

  users_stop :
      (from : GrowthbookInstanceStatus) (s : S)
      → Stops
          (user_line x h i)
          c.user_of
          (with_status i from)
          us
          ready
          missing_secret
          s
          (run h (reconcile_users x db (with_status i from)) s)
  unfolding reconcile_users from_result
  users_stop from =
      handling-Stops x h c.user_of c.finalizers world.cluster (with_status i from) (user_line x h i)
        user_resource (selector_of x i.spec.resource_selector)
        (λ sel. call (list_users i.object.object_meta.namespace sel) from_result)
        (reconcile_user x db) (λ _ j. j) selector us u rest (run-selector_of x h selects)
        (λ s.
          run-call h (list_users i.object.object_meta.namespace selector) from_result s s
            (ok (us ++ u ∷ rest)) (listed s))
        (λ status a q s.
          one_user x db h world.no_documents world.user_bson c.user_of world.user_shelf c.finalizers
            world.cluster world.hashes (with_status i status) a (both_live i a.object) q s refl)
        ready missing_secret
        (λ status.
          run-reconcile_user x db h (with_status i status) u ref missing stays named_secret absent)

  -- In a world of four shelves that are apart, in a cluster that takes patches and lists the users for
  -- the selector of the instance: if it does not have the secret of one of those that are to be
  -- written, the users before it being ready, then what `reconcile` does while it is connected fails with the error of
  -- the cluster, wrapped twice. The users before it have changed the map of users one after the
  -- other; the users after it, and all organizations, features and connections, are as they were.
  pub reconcile_connected_stops :
      (from : GrowthbookInstanceStatus) (s : S)
      → StopsAtUser s (run h (reconcile_connected x db (with_status i from)) s)
  unfolding reconcile_connected str text_eq
  reconcile_connected_stops from s =
      let i0 = with_status i (record from { sub_resource_catalog = [] }) in
      let a = users_stop (record from { sub_resource_catalog = [] }) s in
      let t = (run h (reconcile_users x db i0) s).1 in
      subst (StopsAtUser s)
        (sym (
          run-failed h (while_doing (str "failed reconciling users") (reconcile_users x db i0)) _ s
            t _
            (run-failed_as h _ (reconcile_users x db i0) s t
              (with_status i a.status, missing_secret)
              (ap (λ (q : Outcome Stop GrowthbookInstance). (q, t)) a.ends))))
        (record {
          status = a.status;
          ends = refl;
          users = a.changes;
          organizations = reconcile_users_spares world.organizations_apart x db i0 refl s;
          features = reconcile_users_spares world.features_apart x db i0 refl s;
          connections = reconcile_users_spares world.connections_apart x db i0 refl s;
        })
