-- ===== src/Watching/Requests.antt =====
-- `requestsForChangeBySelector`.
use k8sgrowthbook_controller.Prelude.{◌≡◌, ◌↔◌, ◌⊎◌, arith, List, [], ◌∷◌, GoString}
use k8sgrowthbook_controller.Prelude.Dict.{Dict, NodupKeys}
use k8sgrowthbook_controller.Api.Meta.{ObjectKey}
use k8sgrowthbook_controller.Api.Instance.{GrowthbookInstance}
use k8sgrowthbook_controller.Controller.Objects.{object_key}
use k8sgrowthbook_controller.Controller.Watches.{matching_requests}
use k8sgrowthbook_controller.Watching.Selection.{Selects, matches_iff}

abbrev pub In : {A : Type 0} → A → List A → Type 0
In a [] = ⊥
In a (x ∷ xs) = (a ≡ x) ⊎ In a xs

-- One of the instances selects the labels and has the key.
abbrev pub Woken : Dict GoString → ObjectKey → List GrowthbookInstance → Type 0
Woken labels key [] = ⊥
Woken labels key (i ∷ instances) =
    (Selects labels i.spec.resource_selector × (key ≡ object_key i.object))
    ⊎ Woken labels key instances

-- A change of an object whose labels have no key twice asks to reconcile exactly those of the
-- listed instances whose selector selects the labels.
pub matching_requests_iff :
    (labels : Dict GoString) (key : ObjectKey) (instances : List GrowthbookInstance)
    → NodupKeys labels
    → In key (matching_requests labels instances) ↔ Woken labels key instances
unfolding matching_requests
matching_requests_iff labels key [] h = (λ e. e, λ e. e)
matching_requests_iff labels key (i ∷ instances) h = ground (
  arith,
  matches_iff labels i.spec.resource_selector h,
  matching_requests_iff labels key instances h,
)
