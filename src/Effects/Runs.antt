-- ===== src/Effects/Runs.antt =====
-- Running a program against a world: a state, and a handler that answers each call from it.
use k8sgrowthbook_controller.Prelude.{◌≡◌, refl, ap, ◌∙◌}
use k8sgrowthbook_controller.Effects.Calls.{Call, Reply}
use k8sgrowthbook_controller.Effects.Traces.{Ensures, Holds}
use k8sgrowthbook_controller.Effects.Programs.{Prog, ret, fail, panicked, call, ◌>>=◌, failing_as}
use k8sgrowthbook_controller.Effects.Programs.{attempt, deferring, always}
use k8sgrowthbook_controller.Effects.Errors.{Result, ok, err}

abbrev pub Handler : Type 0 → Type 0
Handler S = (c : Call) → S → Reply c × S

pub data Outcome (E A : Type 0) : Type 0 where
  returned : A → Outcome E A
  failed : E → Outcome E A
  crashed : Outcome E A

abbrev pub run : {E A S : Type 0} → Handler S → Prog E A → S → Outcome E A × S
run h (ret a) s = (returned a, s)
run h (fail e) s = (failed e, s)
run h panicked s = (crashed, s)
run h (call c k) s = let (r, s') = h c s in run h (k r) s'

abbrev pub continue :
    {E A B S : Type 0} → Handler S → (A → Prog E B) → Outcome E A → S → Outcome E B × S
continue h f (returned a) s = run h (f a) s
continue h f (failed e) s = (failed e, s)
continue h f crashed s = (crashed, s)

-- A sequence runs its second part from where the first left the world.
pub run-bind :
    {E A B S : Type 0} (h : Handler S) (m : Prog E A) (f : A → Prog E B) (s : S)
    → run h (m >>= f) s ≡ continue h f (run h m s).0 (run h m s).1
unfolding ◌>>=◌
run-bind h (ret a) f s = refl
run-bind h (fail e) f s = refl
run-bind h panicked f s = refl
run-bind h (call c k) f s = let (r, s') = h c s in run-bind h (k r) f s'

-- A call runs on with its reply, from where it left the world.
pub run-call :
    {E A S : Type 0} (h : Handler S) (c : Call) (k : Reply c → Prog E A) (s t : S) (r : Reply c)
    → h c s ≡ (r, t)
    → run h (call c k) s ≡ run h (k r) t
run-call h c k s t r e = ap (λ p. run h (k p.0) p.1) e

-- What holds of a value that a run returns.
abbrev pub OfReturned : {E A : Type 0} → (A → Type 0) → Outcome E A → Type 0
OfReturned Q (returned a) = Q a
OfReturned Q (failed e) = Unit
OfReturned Q crashed = Unit

run-Holds :
    {E A S : Type 0} (P : Call → Type 0) (Q : A → Type 0) (R : E → Type 0) (h : Handler S)
    (m : Prog E A) (s : S)
    → Holds P Q R m
    → OfReturned Q (run h m s).0
run-Holds P Q R h (ret a) s q = q
run-Holds P Q R h (fail e) s q = tt
run-Holds P Q R h panicked s q = tt
run-Holds P Q R h (call c k) s (p, q) = let (r, t) = h c s in run-Holds P Q R h (k r) t (q r)

-- What a program ensures whatever the replies holds of a run.
pub run-Ensures :
    {E A S : Type 0} {P : Call → Type 0} {Q : A → Type 0} {R : E → Type 0} (h : Handler S)
    (m : Prog E A) (s : S)
    → Ensures P Q R m
    → OfReturned Q (run h m s).0
run-Ensures {P = P} {Q = Q} {R = R} h m s e = run-Holds P Q R h m s e.at

-- The outcome with another error.
abbrev reworded : {E F A : Type 0} → (E → F) → Outcome E A → Outcome F A
reworded f (returned a) = returned a
reworded f (failed e) = failed (f e)
reworded f crashed = crashed

failing_as-run :
    {E F A S : Type 0} (h : Handler S) (f : E → F) (m : Prog E A) (s : S)
    → run h (failing_as f m) s ≡ (reworded f (run h m s).0, (run h m s).1)
unfolding failing_as
failing_as-run h f (ret a) s = refl
failing_as-run h f (fail e) s = refl
failing_as-run h f panicked s = refl
failing_as-run h f (call c k) s = let (r, t) = h c s in failing_as-run h f (k r) t

-- How an error is worded does not matter where there is none.
pub run-failing_as :
    {E F A S : Type 0} (h : Handler S) (f : E → F) (m : Prog E A) (s t : S) (a : A)
    → run h m s ≡ (returned a, t)
    → run h (failing_as f m) s ≡ (returned a, t)
run-failing_as h f m s t a e = failing_as-run h f m s ∙ ap (λ o. (reworded f o.0, o.1)) e

-- A first part whose run is known.
pub run-then :
    {E A B S : Type 0} (h : Handler S) (m : Prog E A) (f : A → Prog E B) (s t : S) (a : A)
    → run h m s ≡ (returned a, t)
    → run h (m >>= f) s ≡ run h (f a) t
run-then h m f s t a e = run-bind h m f s ∙ ap (λ o. continue h f o.0 o.1) e

-- A first part that fails is the end, with the error worded as it should be.
pub run-failed :
    {E A B S : Type 0} (h : Handler S) (m : Prog E A) (f : A → Prog E B) (s t : S) (e : E)
    → run h m s ≡ (failed e, t)
    → run h (m >>= f) s ≡ (failed e, t)
run-failed h m f s t e q = run-bind h m f s ∙ ap (λ o. continue h f o.0 o.1) q

pub run-failed_as :
    {E F A S : Type 0} (h : Handler S) (f : E → F) (m : Prog E A) (s t : S) (e : E)
    → run h m s ≡ (failed e, t)
    → run h (failing_as f m) s ≡ (failed (f e), t)
run-failed_as h f m s t e q = failing_as-run h f m s ∙ ap (λ o. (reworded f o.0, o.1)) q

-- An attempt goes on with the outcome as a value, and a panic ends it.
abbrev attempted :
    {E F A B S : Type 0} → Handler S → (Result E A → Prog F B) → Outcome E A → S → Outcome F B × S
attempted h f (returned a) s = run h (f (ok a)) s
attempted h f (failed e) s = run h (f (err e)) s
attempted h f crashed s = (crashed, s)

attempt-run :
    {E F A B S : Type 0} (h : Handler S) (m : Prog E A) (f : Result E A → Prog F B) (s : S)
    → run h (attempt m f) s ≡ attempted h f (run h m s).0 (run h m s).1
unfolding attempt
attempt-run h (ret a) f s = refl
attempt-run h (fail e) f s = refl
attempt-run h panicked f s = refl
attempt-run h (call c k) f s = let (r, t) = h c s in attempt-run h (k r) f t

pub run-attempt :
    {E F A B S : Type 0} (h : Handler S) (m : Prog E A) (f : Result E A → Prog F B) (s t : S)
    (a : A)
    → run h m s ≡ (returned a, t)
    → run h (attempt m f) s ≡ run h (f (ok a)) t
run-attempt h m f s t a e = attempt-run h m f s ∙ ap (λ o. attempted h f o.0 o.1) e

-- The program that has an outcome.
abbrev ending : {E A : Type 0} → Outcome E A → Prog E A
ending (returned a) = ret a
ending (failed e) = fail e
ending crashed = panicked

deferring-run :
    {E F A S : Type 0} (h : Handler S) (cleanup : Prog F Unit) (m : Prog E A) (s : S)
    → run h (deferring cleanup m) s ≡ run h (always cleanup (ending (run h m s).0)) (run h m s).1
unfolding deferring
deferring-run h cleanup (ret a) s = refl
deferring-run h cleanup (fail e) s = refl
deferring-run h cleanup panicked s = refl
deferring-run h cleanup (call c k) s = let (r, t) = h c s in deferring-run h cleanup (k r) t

-- What is deferred runs after a value too.
pub run-deferring :
    {E F A S : Type 0} (h : Handler S) (cleanup : Prog F Unit) (m : Prog E A) (s t : S) (a : A)
    → run h m s ≡ (returned a, t)
    → run h (deferring cleanup m) s ≡ run h (always cleanup (ret a)) t
run-deferring h cleanup m s t a e =
    deferring-run h cleanup m s ∙ ap (λ o. run h (always cleanup (ending o.0)) o.1) e
