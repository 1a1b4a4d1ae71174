-- ===== src/Effects/Programs.antt =====
-- Programs: a tree of calls that ends in a value, an error or a Go panic. The ways to put programs
-- together are shut, so that proofs go by their rules.
use k8sgrowthbook_controller.Prelude.{Option, none, some}
use k8sgrowthbook_controller.Effects.Errors.{Result, ok, err}
use k8sgrowthbook_controller.Effects.Calls.{Call, Reply}

pub data Prog (E A : Type 0) : Type 0 where
  ret : A → Prog E A
  fail : E → Prog E A
  panicked : Prog E A
  call : (c : Call) → (Reply c → Prog E A) → Prog E A

infixl 5 ◌>>=◌ ◌>>◌
unfoldable pub ◌>>=◌ : {E A B : Type 0} → Prog E A → (A → Prog E B) → Prog E B
ret a >>= f = f a
fail e >>= f = fail e
panicked >>= f = panicked
call c k >>= f = call c (λ r. k r >>= f)

abbrev pub ◌>>◌ : {E A B : Type 0} → Prog E A → Prog E B → Prog E B
m >> k = m >>= λ _. k

-- `x, err := m`, for code that looks at `err` itself. A panic still ends everything.
unfoldable pub attempt : {E F A B : Type 0} → Prog E A → (Result E A → Prog F B) → Prog F B
attempt (ret a) f = f (ok a)
attempt (fail e) f = f (err e)
attempt panicked f = panicked
attempt (call c k) f = call c (λ r. attempt (k r) f)

-- `if err != nil { return f(err) }`
unfoldable pub failing_as : {E F A : Type 0} → (E → F) → Prog E A → Prog F A
failing_as f (ret a) = ret a
failing_as f (fail e) = fail (f e)
failing_as f panicked = panicked
failing_as f (call c k) = call c (λ r. failing_as f (k r))

-- `m` and then `k`, whether or not `m` failed.
unfoldable pub always : {E F A B : Type 0} → Prog E A → Prog F B → Prog F B
always (ret _) k = k
always (fail _) k = k
always panicked k = panicked
always (call c f) k = call c (λ r. always (f r) k)

-- A deferred `cleanup` whose error is only logged: it runs at a return, an error and a panic.
unfoldable pub deferring : {E F A : Type 0} → Prog F Unit → Prog E A → Prog E A
unfolding always
deferring cleanup (ret a) = always cleanup (ret a)
deferring cleanup (fail e) = always cleanup (fail e)
deferring cleanup panicked = always cleanup panicked
deferring cleanup (call c k) = call c (λ r. deferring cleanup (k r))

unfoldable pub from_result : {E A : Type 0} → Result E A → Prog E A
from_result (ok a) = ret a
from_result (err e) = fail e

-- A computation that `none` says panics, such as one that reads through a nil pointer.
unfoldable pub or_panic : {E A : Type 0} → Option A → Prog E A
or_panic none = panicked
or_panic (some a) = ret a

-- A reply of which only the error counts.
unfoldable pub done : {E A : Type 0} → Result E A → Prog E Unit
done (ok _) = ret tt
done (err e) = fail e
