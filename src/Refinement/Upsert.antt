-- ===== src/Refinement/Upsert.antt =====
-- The scheme of the updates of users, organizations and connections, on a shelf: find, decode,
-- compare, write.
use k8sgrowthbook_controller.Prelude.{◌≡◌, refl, sym, ap, ◌∙◌, arith, Option, none, some, GoString}
use k8sgrowthbook_controller.Prelude.{Bytes, text_eq, ◌==◌, if◌then◌else◌, inl, inr, true}
use mathlib.Core.Option.{some-injective}
use k8sgrowthbook_controller.Prelude.Options.{Option-cases}
use k8sgrowthbook_controller.Effects.{Error, Result, ok, err, Prog, ret, ◌>>=◌, attempt, call}
use k8sgrowthbook_controller.Effects.{from_result, Collection, marshal}
use k8sgrowthbook_controller.Effects.{mongo_find_one}
use k8sgrowthbook_controller.Effects.Runs.{Handler, run, run-call, run-bind, continue, Outcome}
use k8sgrowthbook_controller.Effects.Runs.{returned}
use k8sgrowthbook_controller.Storage.{by_id, find_one}
use k8sgrowthbook_controller.Refinement.Shelf.{Kind, IsShelf, answer, Lands}
use k8sgrowthbook_controller.Refinement.Landing.{
  encode_injective, unchanged_bytes, same-Puts, Lands-if,
}

-- How an update goes: the ID that it is about, what it does where no document has it, what it makes
-- of one that has, and how it writes that, with its BSON.
pub record Plan (A : Type 0) : Type 0 where
  pub id : GoString
  pub fresh : Prog Error Unit
  pub over : A → A
  pub commit : A → Bytes → Prog Error Unit

module _ {A : Type 0} (over : A → A) where
  -- If it needed no change, it is as it was.
  abbrev Stays : Option A → A → Type 0
  Stays none v = Unit
  Stays (some e) v = over e ≡ e → v ≡ e

  -- What may be put in and needs no change any more.
  abbrev pub Steadily : (Option A → A → Type 0) → Option A → A → Type 0
  Steadily After o v = After o v × (over v ≡ v) × Stays o v

  pub Steadily-again :
      (After : Option A → A → Type 0) (o : Option A) (v w : A)
      → Steadily After o v
      → Steadily After (some v) w
      → w ≡ v
  Steadily-again After o v w (_, settled, _) (_, _, stays) = stays settled

module _ {A : Type 0} (k : Kind A) (p : Plan A) where
  abbrev after_outcome : A → Bytes → Result Error Bytes → Prog Error Unit
  after_outcome e before r =
      from_result r >>= λ after. if before == after then ret tt else p.commit e after

  abbrev after_existing : A → Result Error Bytes → Prog Error Unit
  after_existing e r = from_result r >>= λ before.
      call (marshal (k.document (p.over e))) from_result >>= λ after.
      after_outcome e before (ok after)

  abbrev compared : A → Prog Error Unit
  compared e = call (marshal (k.document e)) from_result >>= λ before. after_existing e (ok before)

  abbrev found : Result Error Bytes → Prog Error Unit
  found (err _) = p.fresh
  found (ok b) = k.decode b >>= compared

  unfoldable pub upsert : Collection → Prog Error Unit
  upsert col = attempt (find_one col (by_id p.id)) found

module _ {A S : Type 0} {h : Handler S} {k : Kind A} {col : Collection} {no_documents : Error}
    {stored : GoString → S → Option A} (laws : IsShelf h k col no_documents stored) where
  own : (id : GoString) (a b : Option A) → (if id == id then a else b) ≡ a
  own id a b = ground arith

  equal_bytes : (a b : Bytes) → a ≡ b → (a == b) ≡ true
  equal_bytes a b e = ground arith

  module _ (p : Plan A) where
    run-absent : (s : S) → stored p.id s ≡ none → run h (upsert k p col) s ≡ run h p.fresh s
    unfolding upsert find_one attempt from_result
    run-absent s e =
        run-call h (mongo_find_one col (by_id p.id)) (λ r. attempt (from_result r) (found k p)) s s
          (err no_documents) (laws.finds p.id s ∙ ap (λ o. (answer no_documents k o, s)) e)

    run-compared :
        (e : A) (s : S)
        → run h (compared k p e) s
          ≡ run h (after_outcome k p e (k.encode e) (ok (k.encode (p.over e)))) s
    unfolding ◌>>=◌ from_result
    run-compared e s =
        run-call h (marshal (k.document e)) (after_existing k p e) s s (ok (k.encode e))
          (laws.marshals e s)
        ∙ run-call h (marshal (k.document (p.over e))) (after_outcome k p e (k.encode e)) s s
            (ok (k.encode (p.over e))) (laws.marshals (p.over e) s)

    pub run-present :
        (e : A) (s : S)
        → stored p.id s ≡ some e
        → run h (upsert k p col) s
          ≡ run h
              (if k.encode e == k.encode (p.over e)
                then ret tt
                else p.commit e (k.encode (p.over e)))
              s
    unfolding upsert find_one attempt from_result ◌>>=◌
    run-present e s q =
        run-call h (mongo_find_one col (by_id p.id)) (λ r. attempt (from_result r) (found k p)) s s
          (ok (k.encode e)) (laws.finds p.id s ∙ ap (λ o. (answer no_documents k o, s)) q)
        ∙ run-bind h (k.decode (k.encode e)) (compared k p) s
        ∙ ap (λ (o : Outcome Error A × S). continue h (compared k p) o.0 o.1) (laws.decodes e s)
        ∙ run-compared e s

    -- If the two ways to write land, so does the update. `After` is what may be put in, from what was
    -- there.
    pub Lands-upsert :
        (After : Option A → A → Type 0)
        → ((s : S) → stored p.id s ≡ none → Lands stored p.id (After none) s (run h p.fresh s))
        → ((e : A) → After (some e) (p.over e))
        → ((e : A) (s : S)
            → stored p.id s ≡ some e
            → Lands stored p.id (After (some e)) s (run h (p.commit e (k.encode (p.over e))) s))
        → (s : S) → Lands stored p.id (After (stored p.id s)) s (run h (upsert k p col) s)
    Lands-upsert After hf ho hc s = elim (Option-cases (stored p.id s)) [
      | inl q ↦ rw (q, run-absent s q) (hf s q)
      | inr (e, q) ↦
          rw (q, run-present e s q)
            (Lands-if h stored p.id (After (some e)) s (k.encode e == k.encode (p.over e)) (ret tt)
              (p.commit e (k.encode (p.over e)))
              (λ b. record {
                ends = refl;
                outcome = p.over e;
                holds = ho e;
                puts =
                    same-Puts stored p.id e (p.over e) s q
                      (encode_injective laws e (p.over e) s (unchanged_bytes _ _ b));
              })
              (λ _. hc e s q))
    ]

    quiet :
        (a b : Bytes) (m : Prog Error Unit) (s : S)
        → a ≡ b
        → run h (if a == b then ret tt else m) s ≡ (returned tt, s)
    quiet a b m s e = rw (equal_bytes a b e) refl

    -- An update that would make no change does nothing at all.
    pub upsert-settles :
        (v : A) (s : S)
        → stored p.id s ≡ some v
        → p.over v ≡ v
        → run h (upsert k p col) s ≡ (returned tt, s)
    upsert-settles v s q r =
        run-present v s q ∙ quiet (k.encode v) (k.encode (p.over v)) _ s (ap k.encode (sym r))

    -- So is an update of a document that has just been put in, if that needs no change.
    pub upsert-again :
        (P : A → Type 0) (s : S) (o : Outcome Error Unit × S)
        → Lands stored p.id P s o
        → ((a : A) → P a → p.over a ≡ a)
        → run h (upsert k p col) o.1 ≡ (returned tt, o.1)
    upsert-again P s o l f =
        upsert-settles l.outcome o.1 (l.puts p.id ∙ own p.id _ _) (f l.outcome l.holds)

    stays :
        (s : S) (o : Option A) (r : Outcome Error Unit × S) (v : A)
        → stored p.id s ≡ o
        → run h (upsert k p col) s ≡ r
        → stored p.id r.1 ≡ some v
        → Stays p.over o v
    stays s none r v q e l = tt
    stays s (some d) r v q e l = λ settled.
        let same : r ≡ (returned tt, s) = sym e ∙ upsert-settles d s q settled in
        some-injective v d (sym l ∙ ap (λ (o : Outcome Error Unit × S). stored p.id o.1) same ∙ q)

    -- An update that lands with what needs no change any more lands steadily.
    pub Lands-Steadily :
        (After : Option A → A → Type 0) (s : S)
        → Lands stored p.id
            (λ v. After (stored p.id s) v × (p.over v ≡ v))
            s
            (run h (upsert k p col) s)
        → Lands stored p.id (Steadily p.over After (stored p.id s)) s (run h (upsert k p col) s)
    Lands-Steadily After s l = record {
      ends = l.ends;
      outcome = l.outcome;
      holds = (
        l.holds.0,
        l.holds.1,
        stays s (stored p.id s) (run h (upsert k p col) s) l.outcome refl refl
            (l.puts p.id ∙ own p.id _ _),
      );
      puts = l.puts;
    }
