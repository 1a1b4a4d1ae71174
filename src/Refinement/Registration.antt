-- ===== src/Refinement/Registration.antt =====
-- The first loop of the handlers, in a cluster: finalizers and the catalog.
use k8sgrowthbook_controller.Prelude.{◌≡◌, refl, ap, ◌∙◌, Bool, true, false, ◌++◌, ◌∷◌, []}
use k8sgrowthbook_controller.Prelude.{Option, List, GoString, contains}
use k8sgrowthbook_controller.Prelude.{if◌then◌else◌, text_eq}
use k8sgrowthbook_controller.Api.Meta.{Object, ObjectKey, is_live}
use k8sgrowthbook_controller.Api.Instance.{GrowthbookInstance, GrowthbookInstanceStatus}
use k8sgrowthbook_controller.Effects.{ret}
use k8sgrowthbook_controller.Effects.Runs.{Handler, run, run-then, run-failing_as, returned}
use k8sgrowthbook_controller.Effects.Runs.{Outcome}
use k8sgrowthbook_controller.Controller.Catalog.{
  Resource, object_of, update_resource_catalog, resource_reference, set_catalog, reference_eq,
}
use k8sgrowthbook_controller.Controller.Externals.{Externals, Stop}
use k8sgrowthbook_controller.Controller.Objects.{add_finalizer, finalizer_name}
use k8sgrowthbook_controller.Controller.Resources.{register, stopping}
use k8sgrowthbook_controller.Refinement.Cluster.{IsCluster, run-add_finalizer}

abbrev pub with_status : GrowthbookInstance → GrowthbookInstanceStatus → GrowthbookInstance
with_status i status = record i { status = status }

cataloged :
    (i : GrowthbookInstance) (status : GrowthbookInstanceStatus) (r : Resource)
    → (next : GrowthbookInstanceStatus) × (update_resource_catalog (with_status i status) r
        ≡ with_status i next)
unfolding update_resource_catalog
cataloged i status r = go (contains (resource_reference r) status.sub_resource_catalog)
  where
    go :
        (known : Bool)
        → (next : GrowthbookInstanceStatus) × ((if known
              then with_status i status
              else set_catalog
                  (with_status i status)
                  (status.sub_resource_catalog ++ resource_reference r ∷ []))
            ≡ with_status i next)
    go true = (status, refl)
    go false = (
      record status {
        sub_resource_catalog = status.sub_resource_catalog ++ resource_reference r ∷ [];
      },
      refl,
    )

registered_one :
    (i : GrowthbookInstance) (status : GrowthbookInstanceStatus) (r : Resource) (live : Bool)
    → (next : GrowthbookInstanceStatus) × ((if live
          then update_resource_catalog (with_status i status) r
          else with_status i status)
        ≡ with_status i next)
registered_one i status r true = cataloged i status r
registered_one i status r false = (status, refl)

module _ {A S : Type 0} (x : Externals) (h : Handler S) (stored : GoString → S → Option A)
    (finalizers : ObjectKey → S → List GoString)
    (cluster : (obj : Object) → IsCluster h stored finalizers obj) where
  -- A run returns the instance with another status, and leaves the documents alone.
  pub record Registers (i : GrowthbookInstance) (s : S) (o : Outcome Stop GrowthbookInstance × S)
      : Type 0 where
    pub status : GrowthbookInstanceStatus
    pub world : S
    pub run_is : o ≡ (returned (with_status i status), world)
    pub keeps : (j : GoString) → stored j world ≡ stored j s

  register-Registers :
      (name : GoString) (rs : List Resource) (i : GrowthbookInstance)
      (status : GrowthbookInstanceStatus) (s : S)
      → Registers i s (run h (register x name rs (with_status i status)) s)
  unfolding register
  register-Registers name [] i status s = record {
    status = status;
    world = s;
    run_is = refl;
    keeps = λ j. refl;
  }
  register-Registers name (r ∷ rs) i status s =
      let (t, added, same) = run-add_finalizer (cluster (object_of r)) x name s in
      let (next, is_next) = registered_one i status r (is_live (object_of r)) in
      let rest = register-Registers name rs i next t in
      record {
        status = rest.status;
        world = rest.world;
        run_is =
            run-then h (stopping (with_status i status) (add_finalizer x name (object_of r))) _ s t
              tt (run-failing_as h _ (add_finalizer x name (object_of r)) s t tt added)
            ∙ ap (λ k. run h (register x name rs k) t) is_next
            ∙ rest.run_is;
        keeps = λ j. rest.keeps j ∙ same j;
      }

  pub registering-Registers :
      (i : GrowthbookInstance) (rs : List Resource) (live : Bool) (s : S)
      → Registers i s (run h (if live then register x (finalizer_name i) rs i else ret i) s)
  registering-Registers i rs true s = register-Registers (finalizer_name i) rs i i.status s
  registering-Registers i rs false s = record {
    status = i.status;
    world = s;
    run_is = refl;
    keeps = λ j. refl;
  }
