-- ===== src/Start/Runs.antt =====
-- What holds of every run of a program that starts.
use k8sgrowthbook_controller.Prelude.{List, [], ◌∷◌}
use k8sgrowthbook_controller.Start.Steps.{
  Startup, done, exit, step, Answer, Event, End, ended, exited, World, trace,
}

-- `P` holds of the steps and of the end, whatever the replies.
abbrev pub Every : {A : Type 0} → Startup A → (List Event → End → Type 0) → Type 0
Every (done _) P = P [] ended
Every (exit n) P = P [] (exited n)
Every (step c k) P =
    (r : Answer c) → Every (k r) (λ events end. P (record { taken = c; answer = r } ∷ events) end)

pub trace-Every :
    {A S : Type 0} (w : World S) (m : Startup A) (P : List Event → End → Type 0)
    → Every m P
    → (s : S) → P (trace w m s).0 (trace w m s).1
trace-Every w (done _) P h s = h
trace-Every w (exit n) P h s = h
trace-Every w (step c k) P h s =
    let (r, s') = w c s in
    trace-Every w (k r) (λ events end. P (record { taken = c; answer = r } ∷ events) end) (h r) s'

pub Every-weaken :
    {A : Type 0} (m : Startup A) (P Q : List Event → End → Type 0)
    → ((events : List Event) (end : End) → P events end → Q events end)
    → Every m P
    → Every m Q
Every-weaken (done _) P Q f h = f [] ended h
Every-weaken (exit n) P Q f h = f [] (exited n) h
Every-weaken (step c k) P Q f h = λ r.
    Every-weaken (k r) _ _ (λ events end. f (record { taken = c; answer = r } ∷ events) end) (h r)
