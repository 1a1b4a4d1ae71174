-- ===== src/Effects/Traces.antt =====
-- What holds of a program whatever the world replies: of each call that it makes, of each value
-- that it returns and of each error that it fails with. Nothing is said of a panic.
use k8sgrowthbook_controller.Prelude.{Bool, true, false, Option, none, some, ◌≡◌, refl}
use k8sgrowthbook_controller.Prelude.{if◌then◌else◌}
use k8sgrowthbook_controller.Effects.Errors.{Result, ok, err}
use k8sgrowthbook_controller.Effects.Calls.{Call, Reply}
use k8sgrowthbook_controller.Effects.Programs.{Prog, ret, fail, panicked, call, ◌>>=◌, attempt}
use k8sgrowthbook_controller.Effects.Programs.{failing_as, always, deferring, from_result, done}
use k8sgrowthbook_controller.Effects.Programs.{or_panic}

abbrev pub Holds :
    {E A : Type 0} → (Call → Type 0) → (A → Type 0) → (E → Type 0) → Prog E A → Type 0
Holds P Q R (ret a) = Q a
Holds P Q R (fail e) = R e
Holds P Q R panicked = Unit
Holds P Q R (call c k) = P c × ((r : Reply c) → Holds P Q R (k r))

-- On every path of `m` each call satisfies `P`, a value returned `Q` and an error `R`.
pub record Ensures {E A : Type 0} (P : Call → Type 0) (Q : A → Type 0) (R : E → Type 0)
    (m : Prog E A) : Type 0 where
  pub at : Holds P Q R m

abbrev pub Always : {A : Type 0} → A → Type 0
Always a = Unit

-- Every call satisfies `P`.
abbrev pub AllCalls : {E A : Type 0} → (Call → Type 0) → Prog E A → Type 0
AllCalls P m = Ensures P Always Always m

module _ {P : Call → Type 0} {E A : Type 0} {Q : A → Type 0} {R : E → Type 0} where
  pub Ensures-ret : (a : A) → Q a → Ensures P Q R (ret a)
  Ensures-ret a h = record { at = h }

  pub Ensures-fail : (e : E) → R e → Ensures P Q R (fail e)
  Ensures-fail e h = record { at = h }

  pub Ensures-panicked : Ensures P Q R panicked
  Ensures-panicked = record { at = tt }

  pub Ensures-call :
      (c : Call) (k : Reply c → Prog E A)
      → P c
      → ((r : Reply c) → Ensures P Q R (k r))
      → Ensures P Q R (call c k)
  Ensures-call c k pc hk = record { at = (pc, λ r. (hk r).at) }

  pub Ensures-if :
      (b : Bool) (m n : Prog E A)
      → (b ≡ true → Ensures P Q R m)
      → (b ≡ false → Ensures P Q R n)
      → Ensures P Q R (if b then m else n)
  Ensures-if true m n hm hn = hm refl
  Ensures-if false m n hm hn = hn refl

  pub Ensures-then :
      (b : Bool) (m n : Prog E A) → b ≡ true → Ensures P Q R m → Ensures P Q R (if b then m else n)
  Ensures-then true m n h hm = hm
  Ensures-then false m n h hm = cc

  pub Ensures-else :
      (b : Bool) (m n : Prog E A) → b ≡ false → Ensures P Q R n → Ensures P Q R (if b then m else n)
  Ensures-else true m n h hn = cc
  Ensures-else false m n h hn = hn

  -- A weaker claim about the ends.
  pub Ensures-weaken :
      (Q' : A → Type 0) (R' : E → Type 0) (m : Prog E A)
      → Ensures P Q' R' m
      → ((a : A) → Q' a → Q a)
      → ((e : E) → R' e → R e)
      → Ensures P Q R m
  Ensures-weaken Q' R' (ret a) h hq hr = record { at = hq a h.at }
  Ensures-weaken Q' R' (fail e) h hq hr = record { at = hr e h.at }
  Ensures-weaken Q' R' panicked h hq hr = record { at = tt }
  Ensures-weaken Q' R' (call c k) h hq hr = record {
    at = (h.at.0, λ r. (Ensures-weaken Q' R' (k r) (record { at = h.at.1 r }) hq hr).at);
  }

module _ {P : Call → Type 0} {E A B : Type 0} {Q' : B → Type 0} {R : E → Type 0} where
  pub Ensures-bind :
      (Q : A → Type 0) (m : Prog E A) (f : A → Prog E B)
      → Ensures P Q R m
      → ((a : A) → Q a → Ensures P Q' R (f a))
      → Ensures P Q' R (m >>= f)
  unfolding ◌>>=◌
  Ensures-bind Q (ret a) f hm hf = hf a hm.at
  Ensures-bind Q (fail e) f hm hf = record { at = hm.at }
  Ensures-bind Q panicked f hm hf = record { at = tt }
  Ensures-bind Q (call c k) f hm hf = record {
    at = (hm.at.0, λ r. (Ensures-bind Q (k r) f (record { at = hm.at.1 r }) hf).at);
  }

module _ {P : Call → Type 0} {E F A B : Type 0} {Q' : B → Type 0} {R' : F → Type 0} where
  pub Ensures-attempt :
      (Q : A → Type 0) (R : E → Type 0) (m : Prog E A) (f : Result E A → Prog F B)
      → Ensures P Q R m
      → ((a : A) → Q a → Ensures P Q' R' (f (ok a)))
      → ((e : E) → R e → Ensures P Q' R' (f (err e)))
      → Ensures P Q' R' (attempt m f)
  unfolding attempt
  Ensures-attempt Q R (ret a) f hm ho he = ho a hm.at
  Ensures-attempt Q R (fail e) f hm ho he = he e hm.at
  Ensures-attempt Q R panicked f hm ho he = record { at = tt }
  Ensures-attempt Q R (call c k) f hm ho he = record {
    at = (hm.at.0, λ r. (Ensures-attempt Q R (k r) f (record { at = hm.at.1 r }) ho he).at);
  }

  pub Ensures-always :
      (m : Prog E A) (k : Prog F B)
      → AllCalls P m
      → Ensures P Q' R' k
      → Ensures P Q' R' (always m k)
  unfolding always
  Ensures-always (ret a) k hm hk = hk
  Ensures-always (fail e) k hm hk = hk
  Ensures-always panicked k hm hk = record { at = tt }
  Ensures-always (call c f) k hm hk = record {
    at = (hm.at.0, λ r. (Ensures-always (f r) k (record { at = hm.at.1 r }) hk).at);
  }

module _ {P : Call → Type 0} {E F A : Type 0} {Q : A → Type 0} where
  pub Ensures-failing_as :
      {R' : F → Type 0} (R : E → Type 0) (f : E → F) (m : Prog E A)
      → Ensures P Q R m
      → ((e : E) → R e → R' (f e))
      → Ensures P Q R' (failing_as f m)
  unfolding failing_as
  Ensures-failing_as R f (ret a) hm he = record { at = hm.at }
  Ensures-failing_as R f (fail e) hm he = record { at = he e hm.at }
  Ensures-failing_as R f panicked hm he = record { at = tt }
  Ensures-failing_as R f (call c k) hm he = record {
    at = (hm.at.0, λ r. (Ensures-failing_as R f (k r) (record { at = hm.at.1 r }) he).at);
  }

  pub Ensures-deferring :
      {R : E → Type 0} (cleanup : Prog F Unit) (m : Prog E A)
      → AllCalls P cleanup
      → Ensures P Q R m
      → Ensures P Q R (deferring cleanup m)
  unfolding deferring
  Ensures-deferring cleanup (ret a) hc hm =
      Ensures-always cleanup (ret a) hc (record { at = hm.at })
  Ensures-deferring cleanup (fail e) hc hm =
      Ensures-always cleanup (fail e) hc (record { at = hm.at })
  Ensures-deferring cleanup panicked hc hm = Ensures-always cleanup panicked hc (record { at = tt })
  Ensures-deferring cleanup (call c k) hc hm = record {
    at = (hm.at.0, λ r. (Ensures-deferring cleanup (k r) hc (record { at = hm.at.1 r })).at);
  }

module _ {P : Call → Type 0} {E A : Type 0} where
  -- What follows may use that the result was a value.
  pub Ensures-from_result : (r : Result E A) → Ensures P (λ a. r ≡ ok a) Always (from_result r)
  unfolding from_result
  Ensures-from_result (ok a) = record { at = refl }
  Ensures-from_result (err e) = record { at = tt }

  pub AllCalls-from_result : (r : Result E A) → AllCalls {E = E} P (from_result r)
  unfolding from_result
  AllCalls-from_result (ok a) = record { at = tt }
  AllCalls-from_result (err e) = record { at = tt }

  pub AllCalls-done : (r : Result E A) → AllCalls {E = E} P (done r)
  unfolding done
  AllCalls-done (ok a) = record { at = tt }
  AllCalls-done (err e) = record { at = tt }

  pub AllCalls-or_panic : (o : Option A) → AllCalls {E = E} P (or_panic o)
  unfolding or_panic
  AllCalls-or_panic none = record { at = tt }
  AllCalls-or_panic (some a) = record { at = tt }

module _ {P : Call → Type 0} where
  pub AllCalls-bind :
      {E A B : Type 0} (m : Prog E A) (f : A → Prog E B)
      → AllCalls P m
      → ((a : A) → AllCalls P (f a))
      → AllCalls P (m >>= f)
  AllCalls-bind m f hm hf = Ensures-bind Always m f hm (λ a _. hf a)

  pub AllCalls-attempt :
      {E F A B : Type 0} (m : Prog E A) (f : Result E A → Prog F B)
      → AllCalls P m
      → ((r : Result E A) → AllCalls P (f r))
      → AllCalls P (attempt m f)
  AllCalls-attempt m f hm hf =
      Ensures-attempt Always Always m f hm (λ a _. hf (ok a)) (λ e _. hf (err e))

  pub AllCalls-failing_as :
      {E F A : Type 0} (f : E → F) (m : Prog E A) → AllCalls P m → AllCalls P (failing_as f m)
  AllCalls-failing_as f m hm = Ensures-failing_as Always f m hm (λ e _. tt)

pub ruleset trace_rules = (
  tt, refl, Ensures-ret, Ensures-fail, Ensures-panicked, Ensures-call, Ensures-if,
  AllCalls-from_result, AllCalls-done, AllCalls-or_panic, AllCalls-bind, AllCalls-attempt,
  AllCalls-failing_as,
)
