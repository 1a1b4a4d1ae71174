-- ===== src/Controller/Resources.antt =====
-- The steps that `reconcileUsers`, `reconcileOrganizations`, `reconcileFeatures` and
-- `reconcileClients` have in common, each of which writes them out.
use k8sgrowthbook_controller.Prelude.{Bool, ◌&&◌, List, [], ◌∷◌, GoString, if◌then◌else◌}
use k8sgrowthbook_controller.Api.Meta.{Object, LabelSelector, is_live}
use k8sgrowthbook_controller.Api.Instance.{GrowthbookInstance}
use k8sgrowthbook_controller.Prelude.{Option}
use k8sgrowthbook_controller.Effects.{Error, Prog, ret, ◌>>=◌, ◌>>◌, failing_as, from_result}
use k8sgrowthbook_controller.Effects.{Selector}
use k8sgrowthbook_controller.Controller.Externals.{Externals, Stop}
use k8sgrowthbook_controller.Controller.Objects.{add_finalizer, remove_finalizer, finalizer_name}
use k8sgrowthbook_controller.Controller.Catalog.{Resource, object_of, update_resource_catalog}

-- `return instance, err`
abbrev pub stopping : {A : Type 0} → GrowthbookInstance → Prog Error A → Prog Stop A
stopping i m = failing_as (λ e. (i, e)) m

-- `for _, a := range items { ... }`, left at the first error.
unfoldable pub for_each : {A : Type 0} → (A → Prog Error Unit) → List A → Prog Error Unit
for_each body [] = ret tt
for_each body (a ∷ items) = body a >>= λ _. for_each body items

-- Neither the instance nor the resource is being deleted.
abbrev pub both_live : GrowthbookInstance → Object → Bool
both_live i obj = is_live obj && is_live i.object

module _ (x : Externals) where
  unfoldable pub selector_of : Option LabelSelector → Prog Error Selector
  selector_of s = from_result (x.label_selector_as_selector s)

  -- The first loop: a finalizer on every resource, and an entry in the catalog for each live one.
  unfoldable pub register :
      GoString → List Resource → GrowthbookInstance → Prog Stop GrowthbookInstance
  register name [] i = ret i
  register name (r ∷ rs) i = stopping i (add_finalizer x name (object_of r)) >>= λ _.
      register name rs (if is_live (object_of r) then update_resource_catalog i r else i)

  -- It runs unless the instance is being deleted.
  unfoldable pub register_live : List Resource → GrowthbookInstance → Prog Stop GrowthbookInstance
  unfolding register
  register_live rs i = if is_live i.object then register (finalizer_name i) rs i else ret i

  -- What is done for a resource that goes: its document is deleted if the instance prunes, and
  -- then the finalizer is taken off.
  unfoldable pub retire : GrowthbookInstance → Object → Prog Error Unit → Prog Error Unit
  retire i obj delete = do
    if i.spec.prune then delete else ret tt
    remove_finalizer x (finalizer_name i) obj
