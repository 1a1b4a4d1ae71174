-- ===== src/Refinement/Landing.antt =====
-- Rules for programs that put a document on a shelf.
use k8sgrowthbook_controller.Prelude.{
  ◌≡◌, refl, sym, ap, ◌∙◌, Option, none, some, GoString, Bytes, Bool, true, false, arith,
}
use k8sgrowthbook_controller.Prelude.{ℕ, text_eq, ◌==◌, if◌then◌else◌}
use k8sgrowthbook_controller.Effects.{Error, Result, ok, err, Prog, ◌>>=◌, call}
use k8sgrowthbook_controller.Effects.{done, Call, Reply, Collection}
use k8sgrowthbook_controller.Effects.Runs.{Handler, run, run-bind, continue, Outcome}
use k8sgrowthbook_controller.Effects.Runs.{returned, failed, crashed}
use k8sgrowthbook_controller.Storage.{by_id, set_document, insert_one, update_one}
use k8sgrowthbook_controller.Refinement.Shelf.{Kind, IsShelf, Puts, Lands}
use mathlib.Core.Path.{subst}

pub unchanged_bytes : (a b : Bytes) → (a == b) ≡ true → a ≡ b
unchanged_bytes a b e = ground arith

module _ {S : Type 0} (h : Handler S) where
  -- A call whose reply is known, from where it leaves the world.
  pub run_known :
      {E B : Type 0} (c : Call) (f : Reply c → Prog E B) (s : S) (r : Reply c)
      → (h c s).0 ≡ r
      → run h (call c f) s ≡ run h (f r) (h c s).1
  run_known c f s r e = ap (λ q. run h (f q) (h c s).1) e

  pub run-done :
      (r : Result Error ℕ) (n : ℕ) (t : S) → r ≡ ok n → run h (done r) t ≡ (returned tt, t)
  unfolding done
  run-done r n t e = ap (λ q. run h (done q) t) e

module _ {A S : Type 0} {stored : GoString → S → Option A} where
  -- Putting a document from a state that holds the same documents.
  pub Lands-from :
      (id : GoString) (P : A → Type 0) (s t : S) (o : Outcome Error Unit × S)
      → ((j : GoString) → stored j t ≡ stored j s)
      → Lands stored id P t o
      → Lands stored id P s o
  Lands-from id P s t o e l = record {
    ends = l.ends;
    outcome = l.outcome;
    holds = l.holds;
    puts = λ j. l.puts j ∙ ap (λ x. if j == id then some l.outcome else x) (e j);
  }

  pub Lands-weaken :
      (id : GoString) (P Q : A → Type 0) (s : S) (o : Outcome Error Unit × S)
      → ((a : A) → P a → Q a)
      → Lands stored id P s o
      → Lands stored id Q s o
  Lands-weaken id P Q s o f l = record {
    ends = l.ends;
    outcome = l.outcome;
    holds = f l.outcome l.holds;
    puts = l.puts;
  }

module _ {A S : Type 0} (stored : GoString → S → Option A) where
  pub same-Puts :
      (id : GoString) (e v : A) (s : S) → stored id s ≡ some e → e ≡ v → Puts stored id v s s
  same-Puts id e v s p q j = ground arith

module _ {A S : Type 0} (h : Handler S) (stored : GoString → S → Option A) where
  pub Lands-if :
      (id : GoString) (P : A → Type 0) (s : S) (b : Bool) (m n : Prog Error Unit)
      → (b ≡ true → Lands stored id P s (run h m s))
      → (b ≡ false → Lands stored id P s (run h n s))
      → Lands stored id P s (run h (if b then m else n) s)
  Lands-if id P s true m n hm hn = hm refl
  Lands-if id P s false m n hm hn = hn refl

  pub Lands-done :
      (id : GoString) (P : A → Type 0) (s t : S) (a : A) (r : Result Error ℕ) (n : ℕ)
      → r ≡ ok n
      → P a
      → Puts stored id a s t
      → Lands stored id P s (run h (done r) t)
  unfolding done
  Lands-done id P s t a (ok m) n e p q = record { ends = refl; outcome = a; holds = p; puts = q }
  Lands-done id P s t a (err x) n e p q = cc

  after-Lands :
      (id : GoString) (P : A → Type 0) (s : S) (next : Prog Error Unit) (o : Outcome Error Unit × S)
      → ((t : S)
          → ((run h next t).0 ≡ returned tt)
            × ((j : GoString) → stored j (run h next t).1 ≡ stored j t))
      → Lands stored id P s o
      → Lands stored id P s (continue h (λ _. next) o.0 o.1)
  after-Lands id P s next (returned u, t) f l = record {
    ends = (f t).0;
    outcome = l.outcome;
    holds = l.holds;
    puts = λ j. (f t).1 j ∙ l.puts j;
  }
  after-Lands id P s next (failed e, t) f l = cc (l.ends)
  after-Lands id P s next (crashed, t) f l = cc (l.ends)

  -- A second step that ends well and leaves the documents alone.
  pub Lands-then :
      (id : GoString) (P : A → Type 0) (s : S) (m next : Prog Error Unit)
      → ((t : S)
          → ((run h next t).0 ≡ returned tt)
            × ((j : GoString) → stored j (run h next t).1 ≡ stored j t))
      → Lands stored id P s (run h m s)
      → Lands stored id P s (run h (m >>= λ _. next) s)
  Lands-then id P s m next f l =
      subst (Lands stored id P s) (sym (run-bind h m (λ _. next) s))
        (after-Lands id P s next (run h m s) f l)

module _ {A S : Type 0} {h : Handler S} {k : Kind A} {col : Collection} {no_documents : Error}
    {stored : GoString → S → Option A} (laws : IsShelf h k col no_documents stored) where
  pub encode_injective : (e v : A) (s : S) → k.encode e ≡ k.encode v → e ≡ v
  encode_injective e v s p = same (
      ap (λ (o : Outcome Error A × S). o.0)
        (sym (laws.decodes e s) ∙ ap (λ b. run h (k.decode b) s) p ∙ laws.decodes v s))
    where
      same : ◌≡◌ {A = Outcome Error A} (returned e) (returned v) → e ≡ v
      same q = cc

  pub Lands-insert_one :
      (P : A → Type 0) (s : S) (a : A)
      → stored (k.id a) s ≡ none
      → P a
      → Lands stored (k.id a) P s (run h (insert_one col (k.document a)) s)
  unfolding insert_one
  Lands-insert_one P s a e p =
      Lands-done h stored (k.id a) P s _ a _ 1 (laws.inserts a s e) p (λ j. laws.inserted j a s e)

  pub Lands-update_one :
      (P : A → Type 0) (s : S) (a e : A)
      → stored (k.id a) s ≡ some e
      → P a
      → Lands stored
          (k.id a)
          P
          s
          (run h (update_one col (by_id (k.id a)) (set_document (k.encode a))) s)
  unfolding update_one
  Lands-update_one P s a e q p =
      Lands-done h stored (k.id a) P s _ a _ 1 (laws.updates a e s q) p
        (λ j. laws.updated j a e s q)
