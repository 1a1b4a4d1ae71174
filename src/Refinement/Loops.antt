-- ===== src/Refinement/Loops.antt =====
-- The second loop of a handler as a sequence of changes of a map of documents by their ID, whatever
-- the kind of resources.
use mathlib.Core.Path.{subst}
use k8sgrowthbook_controller.Prelude.{◌≡◌, refl, ap, ◌∙◌, Bool, true, false, ◌&&◌}
use k8sgrowthbook_controller.Prelude.{Option, none, some, List, [], ◌∷◌, GoString, text_eq}
use k8sgrowthbook_controller.Prelude.{◌==◌, if◌then◌else◌}
use k8sgrowthbook_controller.Effects.{Error, Prog}
use k8sgrowthbook_controller.Effects.Runs.{Handler, run, run-bind, continue, Outcome, returned}
use k8sgrowthbook_controller.Effects.Runs.{failed, run-failed}
use k8sgrowthbook_controller.Prelude.{◌++◌}
use k8sgrowthbook_controller.Controller.Resources.{for_each}

-- What an instance makes of a kind of resources: which of them stay, whether the documents of the
-- others are deleted, the ID of a resource's document, what has to be there for the resource, and
-- what may become of the document of one that stays.
pub record Line (A R : Type 0) : Type 1 where
  pub live : R → Bool
  pub prune : Bool
  pub id : R → GoString
  pub Ready : Bool → R → Type 0
  pub After : (r : R) → Ready true r → Option A → A → Type 0

-- The documents by their ID.
abbrev pub Documents : Type 0 → Type 0
Documents A = GoString → Option A

module _ {A R : Type 0} (line : Line A R) where
  abbrev pub AllReady : List R → Type 0
  AllReady [] = Unit
  AllReady (r ∷ rs) = line.Ready (line.live r) r × AllReady rs

  -- What a resource does to the map. The document of one that stays is put in as `After` says; that
  -- of one that goes goes if the instance prunes.
  abbrev pub Changes :
      (r : R) (live : Bool) → line.Ready live r → Documents A → Documents A → Type 0
  Changes r true q m n =
      (v : A) × line.After r q (m (line.id r)) v
      × ((j : GoString) → n j ≡ (if j == line.id r then some v else m j))
  Changes r false q m n =
      (j : GoString) → n j ≡ (if line.prune && j == line.id r then none else m j)

  -- What a list of them does, one after the other.
  abbrev pub AllChange : (rs : List R) → AllReady rs → Documents A → Documents A → Type 0
  AllChange [] q m n = (j : GoString) → n j ≡ m j
  AllChange (r ∷ rs) (q, qs) m n =
      (l : Documents A) × Changes r (line.live r) q m l × AllChange rs qs l n

  pub Changes-from :
      (r : R) (live : Bool) (q : line.Ready live r) (l m n : Documents A)
      → ((j : GoString) → l j ≡ m j)
      → Changes r live q l n
      → Changes r live q m n
  Changes-from r true q l m n e (v, after, puts) = (
    v,
    subst (λ o. line.After r q o v) (e (line.id r)) after,
    λ j. puts j ∙ ap (λ o. if j == line.id r then some v else o) (e j),
  )
  Changes-from r false q l m n e c =
      λ j. c j ∙ ap (λ o. if line.prune && j == line.id r then none else o) (e j)

  pub AllChange-from :
      (rs : List R) (q : AllReady rs) (l m n : Documents A)
      → ((j : GoString) → l j ≡ m j)
      → AllChange rs q l n
      → AllChange rs q m n
  AllChange-from [] q l m n e c = λ j. c j ∙ e j
  AllChange-from (r ∷ rs) (q, qs) l m n e (k, c, cs) = (k, Changes-from r _ q l m k e c, cs)

  pub AllChange-to :
      (rs : List R) (q : AllReady rs) (l m n : Documents A)
      → ((j : GoString) → n j ≡ m j)
      → AllChange rs q l m
      → AllChange rs q l n
  AllChange-to [] q l m n e c = λ j. e j ∙ c j
  AllChange-to (r ∷ rs) (q, qs) l m n e (k, c, cs) = (k, c, AllChange-to rs qs k m n e cs)

module _ {A S : Type 0} (stored : GoString → S → Option A) where
  abbrev pub map_of : S → Documents A
  map_of s j = stored j s

  -- The run of a program ends well, and changes the map in a way.
  abbrev pub Does : (Documents A → Documents A → Type 0) → S → Outcome Error Unit × S → Type 0
  Does P s o = (o.0 ≡ returned tt) × P (map_of s) (map_of o.1)

module _ {A R S : Type 0} (line : Line A R) (h : Handler S) (stored : GoString → S → Option A)
    (body : R → Prog Error Unit)
    (one : (r : R) (q : line.Ready (line.live r) r) (s : S)
      → Does stored (Changes line r (line.live r) q) s (run h (body r) s)) where
  after :
      (rs : List R) (o : Outcome Error Unit × S)
      → o.0 ≡ returned tt
      → continue h (λ _. for_each body rs) o.0 o.1 ≡ run h (for_each body rs) o.1
  after rs o e = ap (λ (r : Outcome Error Unit). continue h (λ _. for_each body rs) r o.1) e

  -- If the body does so for each resource, the loop succeeds, and changes the map one resource after
  -- the other.
  pub for_each-AllChange :
      (rs : List R) (q : AllReady line rs) (s : S)
      → Does stored (AllChange line rs q) s (run h (for_each body rs) s)
  unfolding for_each
  for_each-AllChange [] q s = (refl, λ j. refl)
  for_each-AllChange (r ∷ rs) (q, qs) s =
      let o = run h (body r) s in
      let (ends, changes) = one r q s in
      let (all_end, change) = for_each-AllChange rs qs o.1 in
      rw (run-bind h (body r) (λ _. for_each body rs) s ∙ after rs o ends)
        (all_end, (map_of stored o.1, changes, change))

  -- If the body fails for a resource and leaves the world alone, the loop fails so, and has changed the
  -- map by what comes before the resource.
  pub for_each_stops :
      (rs : List R) (r : R) (rest : List R) (q : AllReady line rs) (e : Error)
      → ((s : S) → run h (body r) s ≡ (failed e, s))
      → (s : S)
      → let o = run h (for_each body (rs ++ r ∷ rest)) s in
        (o.0 ≡ failed e) × AllChange line rs q (map_of stored s) (map_of stored o.1)
  unfolding for_each
  for_each_stops [] r rest q e fails s =
      rw (run-failed h (body r) (λ _. for_each body rest) s s e (fails s)) (refl, λ j. refl)
  for_each_stops (a ∷ rs) r rest (q, qs) e fails s =
      let o = run h (body a) s in
      let (ends, changes) = one a q s in
      let (all_end, change) = for_each_stops rs r rest qs e fails o.1 in
      rw
        (run-bind h (body a) (λ _. for_each body (rs ++ r ∷ rest)) s
          ∙ after (rs ++ r ∷ rest) o ends)
        (all_end, (map_of stored o.1, changes, change))
