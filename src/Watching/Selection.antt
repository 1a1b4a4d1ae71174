-- ===== src/Watching/Selection.antt =====
-- `matches`, and the selector that features and clients are listed by.
use k8sgrowthbook_controller.Prelude.{Bool, true, false, ◌≡◌, refl, ◌↔◌, arith, Option, none, some}
use k8sgrowthbook_controller.Prelude.{[], ◌∷◌, GoString, text_eq}
use k8sgrowthbook_controller.Prelude.Dict.{Dict, lookup, NodupKeys}
use k8sgrowthbook_controller.Api.Meta.{LabelSelector}
use k8sgrowthbook_controller.Api.Organization.{GrowthbookOrganization}
use k8sgrowthbook_controller.Api.Instance.{GrowthbookInstance}
use k8sgrowthbook_controller.Effects.{ret, fail, panicked, call, Selector, ok, ◌>>=◌, from_result}
use k8sgrowthbook_controller.Effects.{Call, Prog, Database, failing_as, list_features, list_clients}
use k8sgrowthbook_controller.Effects.Monitors.{Monitor, Obeys}
use k8sgrowthbook_controller.Controller.Externals.{Externals}
use k8sgrowthbook_controller.Controller.Resources.{selector_of}
use k8sgrowthbook_controller.Controller.Features.{combined_selector, reconcile_features}
use k8sgrowthbook_controller.Controller.Clients.{reconcile_clients}
use k8sgrowthbook_controller.Controller.Watches.{has_label, matches_all, matches}

-- Each of the wanted labels has its value.
abbrev pub Agrees : Dict GoString → Dict GoString → Type 0
Agrees labels [] = Unit
Agrees labels ((k, v) ∷ wanted) = (lookup k labels ≡ some v) × Agrees labels wanted

-- No selector, or one whose labels are there.
abbrev pub Selects : Dict GoString → Option LabelSelector → Type 0
Selects labels none = Unit
Selects labels (some selector) = Agrees labels selector.match_labels

no_label :
    (k v : GoString) (labels : Dict GoString)
    → lookup k labels ≡ none
    → has_label k v labels ≡ false
unfolding has_label lookup
no_label k v [] h = refl
no_label k v ((j, w) ∷ labels) h = ground (arith, no_label k v labels)

has_label_iff :
    (k v : GoString) (labels : Dict GoString)
    → NodupKeys labels
    → (has_label k v labels ≡ true) ↔ (lookup k labels ≡ some v)
unfolding has_label lookup
has_label_iff k v [] h = (λ e. cc, λ e. cc)
has_label_iff k v ((j, w) ∷ labels) (fresh, h) =
    ground (arith, has_label_iff k v labels h, no_label k v labels)

matches_all_iff :
    (labels wanted : Dict GoString)
    → NodupKeys labels
    → (matches_all labels wanted ≡ true) ↔ Agrees labels wanted
unfolding matches_all
matches_all_iff labels [] h = (λ _. tt, λ _. refl)
matches_all_iff labels ((k, v) ∷ wanted) h =
    ground (arith, has_label_iff k v labels h, matches_all_iff labels wanted h)

-- Labels, no two with one key, match exactly if there is no selector or each of its labels is there
-- with its value. The selector's expressions have no part in it.
pub matches_iff :
    (labels : Dict GoString) (selector : Option LabelSelector)
    → NodupKeys labels
    → (matches labels selector ≡ true) ↔ Selects labels selector
unfolding matches
matches_iff labels none h = (λ _. tt, λ _. refl)
matches_iff labels (some selector) h = matches_all_iff labels selector.match_labels h

combined_selector-org :
    (x : Externals) (i : GrowthbookInstance) (org : GrowthbookOrganization)
    (selector other : Selector)
    → x.label_selector_as_selector org.spec.resource_selector ≡ ok selector
    → x.label_selector_as_selector i.spec.resource_selector ≡ ok other
    → combined_selector x i org ≡ ret selector
unfolding combined_selector selector_of ◌>>=◌ from_result
combined_selector-org x i org selector other h k = rw (h, k) refl

-- The first call lists resources of one of the two kinds, in the namespace and by the selector.
abbrev IsListing : GoString → Selector → Call → Type 0
IsListing namespace selector (list_features n s) = (n ≡ namespace) × (s ≡ selector)
IsListing namespace selector (list_clients n s) = (n ≡ namespace) × (s ≡ selector)
IsListing namespace selector _ = ⊥

abbrev FirstAllowed : GoString → Selector → Bool → Call → Type 0
FirstAllowed namespace selector true c = Unit
FirstAllowed namespace selector false c = IsListing namespace selector c

-- The state says whether a call was made.
abbrev pub lists_first : GoString → Selector → Monitor Bool
lists_first namespace selector = record {
  step = λ s c r. true;
  allowed = FirstAllowed namespace selector;
}

abbrev pub Listed : Bool → Type 0
Listed s = s ≡ true

-- What follows is free.
free-Listed :
    (namespace : GoString) (selector : Selector) {E A : Type 0} (m : Prog E A)
    → Obeys (lists_first namespace selector) Listed true m
free-Listed namespace selector (ret a) = refl
free-Listed namespace selector (fail e) = refl
free-Listed namespace selector panicked = refl
free-Listed namespace selector (call c k) = (tt, λ r. free-Listed namespace selector (k r))

-- Where the selectors of an instance and of an organization are both valid, the first call of
-- `reconcileFeatures` and of `reconcileClients`, which is always made, is their list, in the
-- instance's namespace and by the selector of the organization alone, whatever that of the instance
-- says.
pub combined_selector_ignores :
    (x : Externals) (db : Database) (i : GrowthbookInstance) (org : GrowthbookOrganization)
    (selector other : Selector)
    → x.label_selector_as_selector org.spec.resource_selector ≡ ok selector
    → x.label_selector_as_selector i.spec.resource_selector ≡ ok other
    → Obeys
        (lists_first i.object.object_meta.namespace selector)
        Listed
        false
        (reconcile_features x db i org)
      × Obeys
          (lists_first i.object.object_meta.namespace selector)
          Listed
          false
          (reconcile_clients x db i org)
unfolding reconcile_features reconcile_clients ◌>>=◌ failing_as
combined_selector_ignores x db i org selector other h k =
    let e = combined_selector-org x i org selector other h k in
    (
      rw e ((refl, refl), λ r. free-Listed i.object.object_meta.namespace selector _),
      rw e ((refl, refl), λ r. free-Listed i.object.object_meta.namespace selector _),
    )
