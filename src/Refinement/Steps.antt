-- ===== src/Refinement/Steps.antt =====
-- Changes of a map of documents that a second change of the same kind adds nothing to.
use mathlib.Core.Path.{subst}
use k8sgrowthbook_controller.Prelude.{◌≡◌, sym, ap, ◌∙◌, arith, Bool, true, false, ◌||◌, ◌&&◌}
use k8sgrowthbook_controller.Prelude.{Option, none, some, List, [], ◌∷◌, GoString, ◌==◌, text_eq}
use k8sgrowthbook_controller.Prelude.{if◌then◌else◌}
use k8sgrowthbook_controller.Refinement.Loops.{
  Documents, Line, AllReady, Changes, Changes-from, AllChange,
}

abbrev pub Change : Type 0 → Type 1
Change A = Documents A → Documents A → Type 0

either_false : (a b : Bool) → (a || b) ≡ false → (a ≡ false) × (b ≡ false)
either_false a b e = ground arith

or_left : (a b : Bool) → a ≡ true → (a || b) ≡ true
or_left a b e = ground arith

or_right : (a b : Bool) → b ≡ true → (a || b) ≡ true
or_right a b e = ground arith

module _ {A : Type 0} where
  -- A change that goes by what there is in the map, leaves alone what is not its own, and of a map that
  -- has its own documents as the change left them makes that same map.
  pub record IsStep (own : GoString → Bool) (P : Change A) : Type 0 where
    pub from : (l m n : Documents A) → ((j : GoString) → l j ≡ m j) → P l n → P m n
    pub others : (m n : Documents A) (j : GoString) → P m n → own j ≡ false → n j ≡ m j
    pub again :
        (m n k l : Documents A)
        → P m n
        → ((j : GoString) → own j ≡ true → k j ≡ n j)
        → P k l
        → (j : GoString) → l j ≡ k j

  abbrev pub Same : Change A
  Same m n = (j : GoString) → n j ≡ m j

  -- One change after the other.
  abbrev pub Then : Change A → Change A → Change A
  Then P Q m n = (l : Documents A) × P m l × Q l n

  pub Same-IsStep : IsStep (λ j. false) Same
  Same-IsStep = record {
    from = λ l m n e p j. p j ∙ e j;
    others = λ m n j p e. p j;
    again = λ m n k l p e q j. q j;
  }

  -- Two steps that own different documents are a step.
  pub Then-IsStep :
      (own owned : GoString → Bool) (P Q : Change A)
      → IsStep own P
      → IsStep owned Q
      → ((j : GoString) → own j ≡ true → owned j ≡ false)
      → IsStep (λ j. own j || owned j) (Then P Q)
  Then-IsStep own owned P Q p q apart = record {
    from = λ l m n e (k, c, d). (k, p.from l m k e c, d);
    others = λ m n j (l, c, d) e.
        let (a, b) = either_false (own j) (owned j) e in q.others l n j d b ∙ p.others m l j c a;
    again = λ m n k l (u, c, d) e (v, f, g) j.
        let kept : (j : GoString) → v j ≡ k j =
          p.again m u k v c
            (λ j o. e j (or_left (own j) (owned j) o) ∙ q.others u n j d (apart j o)) f in
        q.again u n k l d (λ j o. e j (or_right (own j) (owned j) o)) (q.from v k l kept g) j;
  }

other_stays : {A : Type 0} (b : Bool) (o p : Option A) → b ≡ false → (if b then o else p) ≡ p
other_stays b o p e = ground arith

pruned_stays :
    {A : Type 0} (a b : Bool) (o p : Option A) → b ≡ false → (if a && b then o else p) ≡ p
pruned_stays a b o p e = ground arith

own_put : {A : Type 0} (id : GoString) (a b : Option A) → (if id == id then a else b) ≡ a
own_put id a b = ground arith

equal_texts : (j id : GoString) → (j == id) ≡ true → j ≡ id
equal_texts j id e = ground arith

own_id : (j : GoString) → (j == j) ≡ true
own_id j = ground arith

put_again :
    {A : Type 0} (j id : GoString) (k : Documents A) (a : Option A)
    → k id ≡ a
    → (if j == id then a else k j) ≡ k j
put_again j id k a e = ground arith

pruned_again :
    {A : Type 0} (prune : Bool) (j id : GoString) (k n m : Documents A)
    → k id ≡ n id
    → n id ≡ (if prune && id == id then none else m id)
    → (if prune && j == id then none else k j) ≡ k j
pruned_again prune j id k n m e f = ground arith

module _ {A R : Type 0} (line : Line A R) where
  -- What was put in is put in again as it is.
  pub record IsSteady : Type 0 where
    pub steady :
        (r : R) (q : line.Ready true r) (o : Option A) (v w : A)
        → line.After r q o v
        → line.After r q (some v) w
        → w ≡ v

  -- The IDs of a list of resources.
  abbrev pub owns : List R → GoString → Bool
  owns [] j = false
  owns (r ∷ rs) j = (j == line.id r) || owns rs j

  -- No two resources have an ID in common.
  abbrev pub Distinct : List R → Type 0
  Distinct [] = Unit
  Distinct (r ∷ rs) = (owns rs (line.id r) ≡ false) × Distinct rs

  module _ (steady : IsSteady) where
    one-IsStep :
        (r : R) (live : Bool) (q : line.Ready live r)
        → IsStep (λ j. j == line.id r) (Changes line r live q)
    one-IsStep r true q = record {
      from = Changes-from line r true q;
      others = λ m n j (v, after, puts) e. puts j ∙ other_stays (j == line.id r) _ _ e;
      again = λ m n k l (v, after, puts) e (w, after_again, puts_again) j.
          let there : k (line.id r) ≡ some v =
            e (line.id r) (own_id (line.id r)) ∙ puts (line.id r) ∙ own_put (line.id r) _ _ in
          let same : w ≡ v =
            steady.steady r q (m (line.id r)) v w after
              (subst (λ o. line.After r q o w) there after_again) in
          puts_again j ∙ put_again j (line.id r) k (some w) (there ∙ ap some (sym same));
    }
    one-IsStep r false q = record {
      from = Changes-from line r false q;
      others = λ m n j c e. c j ∙ pruned_stays line.prune (j == line.id r) _ _ e;
      again = λ m n k l c e d j.
          d j
          ∙ pruned_again line.prune j (line.id r) k n m (e (line.id r) (own_id (line.id r)))
              (c (line.id r));
    }

    matches_only :
        (rs : List R) (j id : GoString) → owns rs id ≡ false → (j == id) ≡ true → owns rs j ≡ false
    matches_only rs j id e f =
        let same : j ≡ id = equal_texts j id f in subst (λ i. owns rs i ≡ false) (sym same) e

    -- A list of resources whose IDs are distinct is a step.
    pub AllChange-IsStep :
        (rs : List R) (q : AllReady line rs) → Distinct rs → IsStep (owns rs) (AllChange line rs q)
    AllChange-IsStep [] q d = Same-IsStep
    AllChange-IsStep (r ∷ rs) (q, qs) (e, d) =
        Then-IsStep (λ j. j == line.id r) (owns rs) (Changes line r (line.live r) q)
          (AllChange line rs qs) (one-IsStep r (line.live r) q) (AllChange-IsStep rs qs d)
          (λ j f. matches_only rs j (line.id r) e f)
