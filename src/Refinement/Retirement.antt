-- ===== src/Refinement/Retirement.antt =====
-- What becomes of a resource that goes, on a shelf of its documents and in a cluster.
use mathlib.Core.Path.{subst}
use k8sgrowthbook_controller.Prelude.{◌≡◌, refl, sym, ap, ◌∙◌, Bool, true, false, ◌&&◌}
use k8sgrowthbook_controller.Prelude.{Option, none, List, GoString, Bytes, text_eq, ◌==◌}
use k8sgrowthbook_controller.Prelude.{if◌then◌else◌}
use k8sgrowthbook_controller.Api.Meta.{Object, ObjectKey}
use k8sgrowthbook_controller.Api.User.{GrowthbookUser, get_id}
use k8sgrowthbook_controller.Api.Instance.{GrowthbookInstance}
use k8sgrowthbook_controller.Documents.User.{User}
use k8sgrowthbook_controller.Effects.{Error, ok, Database, ret, ◌>>=◌, ◌>>◌}
use k8sgrowthbook_controller.Effects.{done, patch_object, Collection}
use k8sgrowthbook_controller.Effects.{mongo_delete_one}
use k8sgrowthbook_controller.Effects.Runs.{Handler, run, Outcome}
use k8sgrowthbook_controller.Effects.Runs.{returned}
use k8sgrowthbook_controller.Storage.{delete_one, by_id}
use k8sgrowthbook_controller.Growthbook.User.{users, delete_user, from_v1beta1}
use k8sgrowthbook_controller.Controller.Externals.{Externals}
use k8sgrowthbook_controller.Controller.Objects.{object_key, remove_finalizer, finalizer_name}
use k8sgrowthbook_controller.Controller.Objects.{with_finalizers}
use k8sgrowthbook_controller.Controller.Resources.{retire, both_live}
use k8sgrowthbook_controller.Controller.Users.{reconcile_user}
use k8sgrowthbook_controller.Refinement.Cluster.{IsCluster, run-patch}
use k8sgrowthbook_controller.Refinement.Shelf.{IsShelf, IsErasable, IsShelf-IsErasable}
use k8sgrowthbook_controller.Refinement.Landing.{run_known}
use k8sgrowthbook_controller.Refinement.Users.{user_kind}

-- The finalizers without that of the instance.
abbrev pub left : Externals → GrowthbookInstance → Object → List GoString
left x i obj = x.remove_finalizer obj.object_meta.finalizers (finalizer_name i)

-- From `s` the document with the ID goes if `prune`, no other does, and the finalizer is off.
pub record Retired {A S : Type 0} (x : Externals) (i : GrowthbookInstance) (obj : Object)
    (stored : GoString → S → Option A) (finalizers : ObjectKey → S → List GoString) (prune : Bool)
    (id : GoString) (s : S) (o : Outcome Error Unit × S) : Type 0 where
  pub ends : o.0 ≡ returned tt
  pub documents : (j : GoString) → stored j o.1 ≡ (if prune && j == id then none else stored j s)
  pub taken_off : finalizers (object_key obj) o.1 ≡ left x i obj

module _ {A S : Type 0} {h : Handler S} {col : Collection} {stored : GoString → S → Option A}
    (laws : IsErasable h col stored) {finalizers : ObjectKey → S → List GoString} {obj : Object}
    (cluster : IsCluster h stored finalizers obj) (x : Externals) (i : GrowthbookInstance) where
  run-remove_finalizer :
      (s : S)
      → run h (remove_finalizer x (finalizer_name i) obj) s ≡ (
        returned tt,
        (h (patch_object (with_finalizers obj (left x i obj)) (cluster.latest s)) s).1,
      )
  unfolding remove_finalizer
  run-remove_finalizer s = run-patch cluster (left x i obj) s

  remove-Retired :
      (prune : Bool) (id : GoString) (s t : S)
      → ((j : GoString) → stored j t ≡ (if prune && j == id then none else stored j s))
      → Retired x i obj stored finalizers prune id s
          (run h (remove_finalizer x (finalizer_name i) obj) t)
  unfolding object_key
  remove-Retired prune id s t d =
      let e = run-remove_finalizer t in
      let o = with_finalizers obj (left x i obj) in
      record {
        ends = ap (λ (o : Outcome Error Unit × S). o.0) e;
        documents =
            λ j. ap (λ (o : Outcome Error Unit × S). stored j o.1) e ∙ cluster.keeps o j t ∙ d j;
        taken_off =
            ap (λ (o : Outcome Error Unit × S). finalizers (object_key obj) o.1) e
            ∙ cluster.patched o t;
      }

  choice-Retired :
      (prune : Bool) (id : GoString) (s : S)
      → Retired x i obj stored finalizers prune id s (
          run h
            ((if prune then delete_one col (by_id id) else ret tt)
              >> remove_finalizer x (finalizer_name i) obj)
            s)
  unfolding delete_one done ◌>>=◌
  choice-Retired true id s =
      let (n, e) = laws.deletes id s in
      subst (Retired x i obj stored finalizers true id s)
        (sym (
          run_known h (mongo_delete_one col (by_id id))
            (λ r. done r >>= λ _. remove_finalizer x (finalizer_name i) obj) s (ok n) e))
        (remove-Retired true id s (h (mongo_delete_one col (by_id id)) s).1
          (λ j. laws.deleted id j s))
  choice-Retired false id s = remove-Retired false id s s (λ j. refl)

  pub retire-Retired :
      (id : GoString) (s : S)
      → Retired x i obj stored finalizers i.spec.prune id s
          (run h (retire x i obj (delete_one col (by_id id))) s)
  unfolding retire
  retire-Retired id s = choice-Retired i.spec.prune id s

-- The program retires the user's document. `laws` are those of the users' shelf.
module _ {S : Type 0} (db : Database) (h : Handler S) (no_documents : Error) (encode : User → Bytes)
    (stored : GoString → S → Option User)
    (laws : IsShelf h (user_kind encode) (users db) no_documents stored)
    (finalizers : ObjectKey → S → List GoString) (user : GrowthbookUser)
    (cluster : IsCluster h stored finalizers user.object) (x : Externals)
    (i : GrowthbookInstance) where
  -- On a shelf of users, and in a cluster that has the resource and takes patches of it, the
  -- reconciliation of a user succeeds if the instance or the user is being deleted: the document
  -- with the user's ID is gone if the instance prunes and there as before if not, no other document
  -- changes, and the resource has its finalizers without that of the instance.
  pub reconcile_user-Retired :
      both_live i user.object ≡ false
      → (s : S)
      → Retired x i user.object stored finalizers i.spec.prune
          (get_id user)
          s
          (run h (reconcile_user x db i user) s)
  unfolding reconcile_user delete_user from_v1beta1
  reconcile_user-Retired going s =
      rw going (retire-Retired (IsShelf-IsErasable laws) cluster x i (get_id user) s)
