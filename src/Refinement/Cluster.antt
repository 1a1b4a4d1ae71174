-- ===== src/Refinement/Cluster.antt =====
-- A cluster that takes patches, and the patches of `patch`, `addFinalizer` and `removeFinalizer`.
use k8sgrowthbook_controller.Prelude.{◌≡◌, refl, ap, ◌∙◌, Option, List, GoString}
use k8sgrowthbook_controller.Prelude.{Bool, true, false, if◌then◌else◌}
use k8sgrowthbook_controller.Api.Meta.{Object, ObjectKey, is_live}
use k8sgrowthbook_controller.Effects.{Error, ok, Prog, ret, call, ◌>>=◌, from_result, done}
use k8sgrowthbook_controller.Effects.{get_object, patch_object}
use k8sgrowthbook_controller.Effects.Runs.{Handler, run, run-call, returned}
use k8sgrowthbook_controller.Controller.Externals.{Externals}
use k8sgrowthbook_controller.Controller.Objects.{patch, object_key, with_finalizers, add_finalizer}

-- The cluster has the object, takes patches of it, and keeps the finalizers that a patch gives; the
-- documents are elsewhere.
pub record IsCluster {A S : Type 0} (h : Handler S) (stored : GoString → S → Option A)
    (finalizers : ObjectKey → S → List GoString) (obj : Object) : Type 0 where
  pub latest : S → Object
  pub gets : (s : S) → h (get_object obj.type_meta (object_key obj)) s ≡ (ok (latest s), s)
  pub patches : (o : Object) (s : S) → (h (patch_object o (latest s)) s).0 ≡ ok tt
  pub patched :
      (o : Object) (s : S)
      → finalizers (object_key o) (h (patch_object o (latest s)) s).1 ≡ o.object_meta.finalizers
  pub keeps :
      (o : Object) (j : GoString) (s : S)
      → stored j (h (patch_object o (latest s)) s).1 ≡ stored j s

module _ {A S : Type 0} {h : Handler S} {stored : GoString → S → Option A}
    {finalizers : ObjectKey → S → List GoString} {obj : Object}
    (cluster : IsCluster h stored finalizers obj) where
  abbrev putting : List GoString → Object → Prog Error Unit
  putting fs latest = call (patch_object (with_finalizers obj fs) latest) done

  -- Where a patch of the finalizers leaves the world.
  abbrev pub patched_world : List GoString → S → S
  patched_world fs s = (h (patch_object (with_finalizers obj fs) (cluster.latest s)) s).1

  pub run-patch :
      (fs : List GoString) (s : S)
      → run h (patch (with_finalizers obj fs)) s ≡ (returned tt, patched_world fs s)
  unfolding patch ◌>>=◌ from_result done object_key
  run-patch fs s =
      run-call h (get_object obj.type_meta (object_key obj)) (λ r. from_result r >>= putting fs) s s
        (ok (cluster.latest s)) (cluster.gets s)
      ∙ ap (λ r. run h (done r) (patched_world fs s)) (cluster.patches (with_finalizers obj fs) s)

  -- A finalizer is added, and the documents are left alone.
  pub run-add_finalizer :
      (x : Externals) (name : GoString) (s : S)
      → (t : S) × (run h (add_finalizer x name obj) s ≡ (returned tt, t))
        × ((j : GoString) → stored j t ≡ stored j s)
  unfolding add_finalizer
  run-add_finalizer x name s = go (is_live obj) (x.add_finalizer obj.object_meta.finalizers name)
    where
      go :
          (live : Bool) (fs : List GoString)
          → (t : S) × (run h (if live then patch (with_finalizers obj fs) else ret tt) s
              ≡ (returned tt, t))
            × ((j : GoString) → stored j t ≡ stored j s)
      go true fs =
          (patched_world fs s, run-patch fs s, λ j. cluster.keeps (with_finalizers obj fs) j s)
      go false fs = (s, refl, λ j. refl)
