-- ===== src/Merging/Rules.antt =====
-- `mergeRules` of internal/growthbook/feature.go.
use k8sgrowthbook_controller.Prelude.{◌≡◌, refl, ap, ◌∙◌, arith, List, [], ◌∷◌, ◌++◌, none, Slice}
use k8sgrowthbook_controller.Prelude.{elems, append, elems-append}
use k8sgrowthbook_controller.Documents.Feature.{FeatureRule}
use k8sgrowthbook_controller.Growthbook.Feature.{identified, merge_rules}
use mathlib.Core.List.{append-nil}

-- A rule of the controller: GrowthBook gave it no ID.
abbrev pub Unidentified : List FeatureRule → Type 0
Unidentified [] = Unit
Unidentified (rule ∷ rules) = (rule.id ≡ []) × Unidentified rules

identified-append :
    (xs ys : List FeatureRule) → identified (xs ++ ys) ≡ identified xs ++ identified ys
unfolding identified
identified-append [] ys = refl
identified-append (x ∷ xs) ys = ground (arith, identified-append xs ys)

identified_idem : (xs : List FeatureRule) → identified (identified xs) ≡ identified xs
unfolding identified
identified_idem [] = refl
identified_idem (x ∷ xs) = ground (arith, identified_idem xs)

pub identified_of_Unidentified : (xs : List FeatureRule) → Unidentified xs → identified xs ≡ []
unfolding identified
identified_of_Unidentified [] h = refl
identified_of_Unidentified (x ∷ xs) h = ground (arith, identified_of_Unidentified xs h.1)

-- The merged rules are those of the document that have an ID, and then those of the specification.
pub elems-merge_rules :
    (existing spec : Slice FeatureRule)
    → elems (merge_rules existing spec) ≡ identified (elems existing) ++ elems spec
unfolding merge_rules
elems-merge_rules existing spec =
    elems-append (append none (identified (elems existing))) (elems spec)
    ∙ ap (λ xs. xs ++ elems spec) (elems-append none (identified (elems existing)))

kept-merge_rules :
    (existing spec : Slice FeatureRule)
    → Unidentified (elems spec)
    → identified (elems (merge_rules existing spec)) ≡ identified (elems existing)
kept-merge_rules existing spec h = rw (
  elems-merge_rules,
  identified-append,
  identified_idem,
  identified_of_Unidentified (elems spec) h,
  append-nil,
)

-- Merging the same rules without an ID once more changes nothing.
pub merge_rules_idem :
    (existing spec : Slice FeatureRule)
    → Unidentified (elems spec)
    → merge_rules (merge_rules existing spec) spec ≡ merge_rules existing spec
merge_rules_idem existing spec h =
    unfold merge_rules in
    ap (λ xs. append (append none xs) (elems spec)) (kept-merge_rules existing spec h)
