-- ===== src/Refinement/Population.antt =====
-- `reconcileUsers` on a shelf of users and in a cluster.
use k8sgrowthbook_controller.Prelude.{
  ◌≡◌, refl, Bool, true, false, Option, some, List, GoString, Bytes,
}
use k8sgrowthbook_controller.Prelude.Dict.{lookup}
use k8sgrowthbook_controller.Api.Meta.{Object, ObjectKey, SecretReference}
use k8sgrowthbook_controller.Api.User.{GrowthbookUser, get_id}
use k8sgrowthbook_controller.Api.Instance.{GrowthbookInstance}
use k8sgrowthbook_controller.Documents.User.{User}
use k8sgrowthbook_controller.Effects.{Error, ok, Database, Selector, list_users, call}
use k8sgrowthbook_controller.Effects.{from_result, Secret, get_secret}
use k8sgrowthbook_controller.Effects.Runs.{Handler, run, run-call}
use k8sgrowthbook_controller.Growthbook.User.{users}
use k8sgrowthbook_controller.Controller.Catalog.{user_resource}
use k8sgrowthbook_controller.Controller.Externals.{Externals}
use k8sgrowthbook_controller.Controller.Secrets.{field_or_empty}
use k8sgrowthbook_controller.Controller.Resources.{selector_of, both_live}
use k8sgrowthbook_controller.Controller.Users.{reconcile_users, reconcile_user}
use k8sgrowthbook_controller.Refinement.Shelf.{IsShelf}
use k8sgrowthbook_controller.Refinement.Users.{user_kind}
use k8sgrowthbook_controller.Refinement.Cluster.{IsCluster}
use k8sgrowthbook_controller.Refinement.Registration.{with_status}
use k8sgrowthbook_controller.Refinement.Provisioning.{AfterUser, upsert_user_provisions}
use k8sgrowthbook_controller.Refinement.Retirement.{reconcile_user-Retired}
use k8sgrowthbook_controller.Refinement.Loops.{Line, AllReady, Changes, Does}
use k8sgrowthbook_controller.Refinement.Handling.{Reconciles, handling-Reconciles}
use k8sgrowthbook_controller.Refinement.Selecting.{run-selector_of}

-- In the namespace of the instance the cluster keeps the secret that the user names, with a password in it.
pub record IsEquipped {S : Type 0} (h : Handler S) (owner : Object) (user : GrowthbookUser)
    : Type 0 where
  pub ref : SecretReference
  pub secret : Secret
  pub password : GoString
  pub named_secret : user.spec.secret ≡ some ref
  pub held :
      (s : S)
      → h (get_secret (record { namespace = owner.object_meta.namespace; name = ref.name })) s
        ≡ (ok secret, s)
  pub has_password : lookup ref.password_field secret.values ≡ some password

module _ {S : Type 0} (x : Externals) (h : Handler S) (i : GrowthbookInstance) where
  -- Users that are to be written have to be equipped.
  abbrev pub UserReady : Bool → GrowthbookUser → Type 0
  UserReady true u = IsEquipped h i.object u
  UserReady false u = Unit

  -- The users of an instance.
  abbrev pub user_line : Line User GrowthbookUser
  user_line = record {
    live = λ u. both_live i u.object;
    prune = i.spec.prune;
    id = get_id;
    Ready = UserReady;
    After = λ u q. AfterUser x.scrypt_key u (field_or_empty q.secret q.ref.user_field) q.password;
  }

module _ {S : Type 0} (x : Externals) (db : Database) (h : Handler S) (no_documents : Error)
    (encode : User → Bytes) (stored : GoString → S → Option User)
    (laws : IsShelf h (user_kind encode) (users db) no_documents stored)
    (finalizers : ObjectKey → S → List GoString)
    (cluster : (obj : Object) → IsCluster h stored finalizers obj)
    (hashes : (password salt : GoString)
      → (p : Bytes) × (x.scrypt_key password salt 16384 8 1 64 ≡ ok p)) where
  -- One user in the loop.
  pub one_user :
      (i : GrowthbookInstance) (u : GrowthbookUser) (live : Bool) (q : UserReady x h i live u)
      (s : S)
      → both_live i u.object ≡ live
      → Does stored (Changes (user_line x h i) u live q) s (run h (reconcile_user x db i u) s)
  unfolding reconcile_user
  one_user i u true q s e =
      let l =
        upsert_user_provisions x db h no_documents encode stored laws i u q.ref q.secret q.password
          q.named_secret q.held q.has_password (hashes q.password) s in
      rw e (l.ends, (l.outcome, l.holds, l.puts))
  one_user i u false q s e =
      let r =
        reconcile_user-Retired db h no_documents encode stored laws finalizers u (cluster u.object)
          x i e s in
      (r.ends, r.documents)

  module _ (i : GrowthbookInstance) (selector : Selector) (us : List GrowthbookUser)
      (selects : x.label_selector_as_selector i.spec.resource_selector ≡ ok selector)
      (listed : (s : S) → h (list_users i.object.object_meta.namespace selector) s ≡ (ok us, s))
      (ready : AllReady (user_line x h i) us) where
    -- On a shelf of users, in a cluster that takes patches, lists `us` for the selector of the instance
    -- and keeps the secret of each of them that is to be written, with a password in it, and with a
    -- library that hashes every password under every salt, `reconcileUsers` succeeds and returns the
    -- instance with at most another status. The map of users by their ID changes one listed user after
    -- the other: one that stays, if the instance does too, is put in with the identity that its
    -- resource describes, new with a hash of its password or else under the password hash and revision
    -- there were; of any other the document goes if the instance prunes, and nothing changes if not.
    pub reconcile_users-Reconciles :
        (s : S)
        → Reconciles
            (user_line x h i)
            stored
            i
            (λ j. j)
            us
            ready
            s
            (run h (reconcile_users x db i) s)
    unfolding reconcile_users from_result
    reconcile_users-Reconciles =
        handling-Reconciles x h stored finalizers cluster i (user_line x h i) user_resource
          (selector_of x i.spec.resource_selector)
          (λ sel. call (list_users i.object.object_meta.namespace sel) from_result)
          (reconcile_user x db) (λ us j. j) selector us (run-selector_of x h selects)
          (λ s.
            run-call h (list_users i.object.object_meta.namespace selector) from_result s s (ok us)
              (listed s))
          (λ status u q s. one_user (with_status i status) u (both_live i u.object) q s refl) ready
