-- ===== src/Safety/Catalog.antt =====
-- The catalog of an instance's resources, after `updateResourceCatalog` and the first loops.
use k8sgrowthbook_controller.Prelude.{
  Bool, true, false, not, ◌&&◌, ◌||◌, ◌≡◌, refl, arith, List, [], ◌∷◌, ◌++◌,
}
use k8sgrowthbook_controller.Prelude.{GoString, contains, ◌==◌, if◌then◌else◌, Bool-cases, inl, inr}
use k8sgrowthbook_controller.Api.Meta.{is_live}
use k8sgrowthbook_controller.Api.Instance.{GrowthbookInstance, ResourceReference}
use k8sgrowthbook_controller.Effects.Traces.{Ensures, Always, Ensures-bind, Ensures-ret}
use k8sgrowthbook_controller.Effects.Traces.{Ensures-failing_as, Ensures-weaken}
use k8sgrowthbook_controller.Controller.Externals.{Externals, Stop}
use k8sgrowthbook_controller.Controller.Objects.{add_finalizer}
use k8sgrowthbook_controller.Controller.Catalog.{
  Resource, object_of, resource_reference, reference_eq,
}
use k8sgrowthbook_controller.Controller.Catalog.{update_resource_catalog}
use k8sgrowthbook_controller.Controller.Resources.{register, stopping}
use k8sgrowthbook_controller.Safety.Permissions.{Permitted, nowhere}
use k8sgrowthbook_controller.Safety.Resources.{add_finalizer-Permitted}

abbrev pub catalog : GrowthbookInstance → List ResourceReference
catalog i = i.status.sub_resource_catalog

-- No reference comes twice.
abbrev pub all_distinct : List ResourceReference → Bool
all_distinct [] = true
all_distinct (r ∷ rs) = not (contains r rs) && all_distinct rs

contains-concat :
    (a r : ResourceReference) (rs : List ResourceReference)
    → contains a (rs ++ r ∷ []) ≡ (contains a rs || a == r)
contains-concat a r [] = ground arith
contains-concat a r (q ∷ rs) = ground (arith, contains-concat a r rs)

all_distinct-concat :
    (r : ResourceReference) (rs : List ResourceReference)
    → all_distinct rs ≡ true
    → contains r rs ≡ false
    → all_distinct (rs ++ r ∷ []) ≡ true
all_distinct-concat r [] h fresh = refl
all_distinct-concat r (q ∷ rs) h fresh =
    ground (arith, all_distinct-concat r rs, contains-concat q r rs)

contains-update :
    (a : ResourceReference) (i : GrowthbookInstance) (r : Resource)
    → contains a (catalog (update_resource_catalog i r))
      ≡ (contains a (catalog i) || a == resource_reference r)
unfolding update_resource_catalog
contains-update a i r = ground (arith, contains-concat a (resource_reference r) (catalog i))

all_distinct-update :
    (i : GrowthbookInstance) (r : Resource)
    → all_distinct (catalog i) ≡ true
    → all_distinct (catalog (update_resource_catalog i r)) ≡ true
unfolding update_resource_catalog
all_distinct-update i r h = ground (arith, all_distinct-concat (resource_reference r) (catalog i))

-- The reference is of a resource of the list that is not being deleted.
abbrev pub listed : ResourceReference → List Resource → Bool
listed a [] = false
listed a (r ∷ rs) = (is_live (object_of r) && a == resource_reference r) || listed a rs

-- The catalog of `j` has no duplicate, and holds that of `i` and the live resources of the list.
pub record Registered (i : GrowthbookInstance) (rs : List Resource) (j : GrowthbookInstance)
    : Type 0 where
  pub distinct : all_distinct (catalog j) ≡ true
  pub exactly :
      (a : ResourceReference) → contains a (catalog j) ≡ (contains a (catalog i) || listed a rs)

abbrev pub DistinctStop : Stop → Type 0
DistinctStop s = all_distinct (catalog s.0) ≡ true

-- One turn of the loop.
abbrev entered : GrowthbookInstance → Resource → GrowthbookInstance
entered i r = if is_live (object_of r) then update_resource_catalog i r else i

all_distinct-entered :
    (i : GrowthbookInstance) (r : Resource)
    → all_distinct (catalog i) ≡ true
    → all_distinct (catalog (entered i r)) ≡ true
all_distinct-entered i r h = elim (Bool-cases (is_live (object_of r))) [
  | inl e ↦ rw e (all_distinct-update i r h)
  | inr e ↦ rw e h
]

Registered-entered :
    (i j : GrowthbookInstance) (r : Resource) (rs : List Resource)
    → Registered (entered i r) rs j
    → Registered i (r ∷ rs) j
Registered-entered i j r rs h = record {
  distinct = h.distinct;
  exactly = λ a. ground (arith, h.exactly a, contains-update a i r);
}

-- From a catalog without duplicates, whatever Kubernetes replies, the loop that registers resources
-- ends with one that has no duplicate either, and that holds exactly the references it had and
-- those of the listed resources that are not being deleted; also where it fails, it leaves no
-- duplicate.
pub register-Registered :
    (x : Externals) (name : GoString) (rs : List Resource) (i : GrowthbookInstance)
    → all_distinct (catalog i) ≡ true
    → Ensures
        (Permitted nowhere nowhere false)
        (Registered i rs)
        DistinctStop
        (register x name rs i)
unfolding register
register-Registered x name [] i h =
    Ensures-ret i (record { distinct = h; exactly = λ a. ground arith })
register-Registered x name (r ∷ rs) i h =
    Ensures-bind Always (stopping i (add_finalizer x name (object_of r))) _
      (Ensures-failing_as Always _ _
        (add_finalizer-Permitted x nowhere nowhere false name (object_of r)) (λ e _. h))
      λ _ _.
        Ensures-weaken (Registered (entered i r) rs) DistinctStop _
          (register-Registered x name rs (entered i r) (all_distinct-entered i r h))
          (λ j k. Registered-entered i j r rs k) (λ s k. k)
