-- ===== src/Effects/Monitors.antt =====
-- A monitor watches a program's calls and the replies to them, keeps a state, and says which calls
-- are allowed in it: properties of the order of calls, whatever the world replies.
use k8sgrowthbook_controller.Effects.Calls.{Call, Reply}
use k8sgrowthbook_controller.Effects.Programs.{Prog, ret, fail, panicked, call, ◌>>=◌}
use k8sgrowthbook_controller.Effects.Programs.{failing_as, always, deferring}
use k8sgrowthbook_controller.Effects.Traces.{Holds}
use k8sgrowthbook_controller.Prelude.{◌≡◌, refl, sym}
use mathlib.Core.Path.{subst}

pub record Monitor (S : Type 0) : Type 1 where
  pub step : S → (c : Call) → Reply c → S
  pub allowed : S → Call → Type 0

module _ {S : Type 0} (M : Monitor S) where
  -- From state `s`, each call of the program is allowed when it is made, and at a return, an error
  -- or a panic the state satisfies `P`.
  abbrev pub Obeys : {E A : Type 0} → (S → Type 0) → S → Prog E A → Type 0
  Obeys P s (ret a) = P s
  Obeys P s (fail e) = P s
  Obeys P s panicked = P s
  Obeys P s (call c k) = M.allowed s c × ((r : Reply c) → Obeys P (M.step s c r) (k r))

  pub Obeys-bind :
      {E A B : Type 0} (P Q : S → Type 0) (s : S) (m : Prog E A) (f : A → Prog E B)
      → Obeys P s m
      → ((t : S) → P t → Q t)
      → ((t : S) (a : A) → P t → Obeys Q t (f a))
      → Obeys Q s (m >>= f)
  unfolding ◌>>=◌
  Obeys-bind P Q s (ret a) f hm hq hf = hf s a hm
  Obeys-bind P Q s (fail e) f hm hq hf = hq s hm
  Obeys-bind P Q s panicked f hm hq hf = hq s hm
  Obeys-bind P Q s (call c k) f hm hq hf =
      (hm.0, λ r. Obeys-bind P Q (M.step s c r) (k r) f (hm.1 r) hq hf)

  pub Obeys-failing_as :
      {E F A : Type 0} (P : S → Type 0) (s : S) (f : E → F) (m : Prog E A)
      → Obeys P s m
      → Obeys P s (failing_as f m)
  unfolding failing_as
  Obeys-failing_as P s f (ret a) h = h
  Obeys-failing_as P s f (fail e) h = h
  Obeys-failing_as P s f panicked h = h
  Obeys-failing_as P s f (call c k) h =
      (h.0, λ r. Obeys-failing_as P (M.step s c r) f (k r) (h.1 r))

  -- A deferred cleanup sees the state in which the program ended, however it ended.
  pub Obeys-deferring :
      {E F A : Type 0} (P Q : S → Type 0) (s : S) (cleanup : Prog F Unit) (m : Prog E A)
      → Obeys P s m
      → ((t : S) (k : Prog E A)
          → P t
          → ((u : S) → Q u → Obeys Q u k)
          → Obeys Q t (always cleanup k))
      → Obeys Q s (deferring cleanup m)
  unfolding deferring
  Obeys-deferring P Q s cleanup (ret a) hm hc = hc s (ret a) hm (λ u q. q)
  Obeys-deferring P Q s cleanup (fail e) hm hc = hc s (fail e) hm (λ u q. q)
  Obeys-deferring P Q s cleanup panicked hm hc = hc s panicked hm (λ u q. q)
  Obeys-deferring P Q s cleanup (call c k) hm hc =
      (hm.0, λ r. Obeys-deferring P Q (M.step s c r) cleanup (k r) (hm.1 r) hc)

  -- Calls that are allowed in a state and do not leave it keep it.
  pub Obeys-AllCalls :
      {E A : Type 0} (P : Call → Type 0) (Q : A → Type 0) (R : E → Type 0) (s : S)
      → ((c : Call) → P c → M.allowed s c × ((r : Reply c) → M.step s c r ≡ s))
      → (m : Prog E A) → Holds P Q R m
      → Obeys (λ t. t ≡ s) s m
  Obeys-AllCalls P Q R s keep (ret a) h = refl
  Obeys-AllCalls P Q R s keep (fail e) h = refl
  Obeys-AllCalls P Q R s keep panicked h = refl
  Obeys-AllCalls P Q R s keep (call c k) h = (
    (keep c h.0).0,
    λ r.
        subst (λ t. Obeys (λ t. t ≡ s) t (k r)) (sym ((keep c h.0).1 r))
          (Obeys-AllCalls P Q R s keep (k r) (h.1 r)),
  )
