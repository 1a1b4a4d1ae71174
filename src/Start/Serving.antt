-- ===== src/Start/Serving.antt =====
-- A start in which nothing fails.
use mathlib.Core.Path.{subst}
use k8sgrowthbook_controller.Prelude.{◌≡◌, refl, sym, ◌∙◌, ◌≢◌, ◌⊎◌, inl, inr, List, [], ◌∷◌}
use k8sgrowthbook_controller.Effects.{Result, ok, err, Selector}
use k8sgrowthbook_controller.Controller.Externals.{Externals}
use k8sgrowthbook_controller.Start.Steps.{
  Startup, done, exit, step, Step, Answer, Event, End, ended, World, trace, Flags, parse_flags,
  getenv, get_config_or_die, new_manager, add_healthz_check, add_readyz_check, index_field,
  complete, start_manager,
}
use k8sgrowthbook_controller.Start.Options.{StartExternals}
use k8sgrowthbook_controller.Start.Main.{main}
use k8sgrowthbook_controller.Start.Protocol.{
  Phase, stopped, parsed, Verdict, goes, quits, Takes, parses, scopes, configures, creates,
  probes_live, probes_ready, indexes, controls, starts, Finishes, serves, refuses, everywhere,
  stops, proceeds,
}
use k8sgrowthbook_controller.Start.Following.{main-Finishes}

abbrev IsOk : {E A : Type 0} → Result E A → Type 0
IsOk (ok _) = Unit
IsOk (err _) = ⊥

-- The watch selector is accepted.
abbrev pub Accepted : StartExternals → Flags → Type 0
Accepted y flags = (selector : Selector) × (y.get_watch_selector flags.watch_options ≡ ok selector)

abbrev ParsesWell : StartExternals → {E : Type 0} → Result E Flags → Type 0
ParsesWell y (ok flags) = Accepted y flags
ParsesWell y (err e) = ⊥

-- A reply that is no error, and to the flags one with a watch selector that is accepted.
abbrev pub Succeeds : StartExternals → (c : Step) → Answer c → Type 0
Succeeds y (parse_flags _) r = ParsesWell y r
Succeeds y (getenv _) r = Unit
Succeeds y get_config_or_die r = IsOk r
Succeeds y (new_manager _ _) r = IsOk r
Succeeds y (add_healthz_check _ _) r = IsOk r
Succeeds y (add_readyz_check _ _) r = IsOk r
Succeeds y (index_field _ _ _ _) r = IsOk r
Succeeds y (complete _ _) r = IsOk r
Succeeds y (start_manager _) r = IsOk r

-- A world in which no step fails, and the flags that are parsed have such a selector.
abbrev pub IsWilling : StartExternals → {S : Type 0} → World S → Type 0
IsWilling y {S} w = (c : Step) (s : S) → Succeeds y c (w c s).0

abbrev AllSucceed : StartExternals → List Event → Type 0
AllSucceed y [] = Unit
AllSucceed y (e ∷ events) = Succeeds y e.taken e.answer × AllSucceed y events

trace-AllSucceed :
    {A S : Type 0} (y : StartExternals) (w : World S) (m : Startup A)
    → IsWilling y w
    → (s : S) → AllSucceed y (trace w m s).0
trace-AllSucceed y w (done _) h s = tt
trace-AllSucceed y w (exit n) h s = tt
trace-AllSucceed y w (step c k) h s =
    let (r, s') = w c s in (h c s, trace-AllSucceed y w (k r) h s')

impossible : {E A : Type 0} {a : A} {e : E} → ok a ≢ err e
impossible h = cc

abbrev IsStart : Step → Type 0
IsStart (start_manager _) = Unit
IsStart _ = ⊥

-- A manager is started.
abbrev pub Starts : List Event → Type 0
Starts [] = ⊥
Starts (e ∷ events) = IsStart e.taken ⊎ Starts events

abbrev IsStopped : Phase → Type 0
IsStopped (stopped _) = Unit
IsStopped _ = ⊥

-- The watch selector that was parsed is accepted.
abbrev Admitted : StartExternals → Phase → Type 0
Admitted y (parsed flags) = Accepted y flags
Admitted y _ = Unit

-- Only the start of the manager leads to the last phase.
abbrev IsFine : StartExternals → Step → Verdict → Type 0
IsFine y c (goes q) = (IsStopped q → IsStart c) × Admitted y q
IsFine y c (quits _) = ⊥

module _ (x : Externals) (y : StartExternals) where
  Takes-IsFine :
      {p : Phase} {c : Step} {next : Answer c → Verdict}
      → Takes x y p c next
      → (r : Answer c) → Succeeds y c r
      → IsFine y c (next r)
  Takes-IsFine parses (err _) h = elim h [ ]
  Takes-IsFine configures (err _) h = elim h [ ]
  Takes-IsFine (creates o a) (err _) h = elim h [ ]
  Takes-IsFine probes_live (err _) h = elim h [ ]
  Takes-IsFine probes_ready (err _) h = elim h [ ]
  Takes-IsFine indexes (err _) h = elim h [ ]
  Takes-IsFine (controls r i) (err _) h = elim h [ ]
  Takes-IsFine starts (err _) h = elim h [ ]
  Takes-IsFine parses (ok flags) h = (λ s. s, h)
  Takes-IsFine (scopes e) namespace h = (λ s. s, tt)
  Takes-IsFine configures (ok config) h = (λ s. s, tt)
  Takes-IsFine (creates o a) (ok m) h = (λ s. s, tt)
  Takes-IsFine probes_live (ok _) h = (λ s. s, tt)
  Takes-IsFine probes_ready (ok _) h = (λ s. s, tt)
  Takes-IsFine indexes (ok _) h = (λ s. s, tt)
  Takes-IsFine (controls r i) (ok _) h = (λ s. s, tt)
  Takes-IsFine starts (ok _) h = (λ s. tt, tt)

  serving :
      {p : Phase} {events : List Event} {end : End}
      → Finishes x y p events end
      → Admitted y p
      → AllSucceed y events
      → (end ≡ ended) × (IsStopped p ⊎ Starts events)
  serving serves a h = (refl, inl tt)
  serving (refuses e q) a h =
      let refused : ok a.0 ≡ err e = sym a.1 ∙ q in elim (impossible refused) [ ]
  serving (everywhere e f) a h =
      let (ends, s) = serving f tt h in (ends, elim s [ inl n ↦ elim n [ ] | inr s ↦ inr s ])
  serving (stops {c = c} {r = r} t q) a h = elim (subst (IsFine y c) q (Takes-IsFine t r h.0)) [ ]
  serving (proceeds {c = c} {r = r} t q f) a h =
      let fine = subst (IsFine y c) q (Takes-IsFine t r h.0) in
      let (ends, s) = serving f fine.1 h.1 in
      (ends, elim s [ inl n ↦ inr (inl (fine.0 n)) | inr s ↦ inr (inr s) ])

  -- If no step fails and the library accepts the watch selector of the flags that are parsed, `main`
  -- starts a manager and ends when that one has stopped, without an exit status.
  pub main_serves :
      {S : Type 0} (w : World S)
      → IsWilling y w
      → (s : S) → ((trace w (main x y) s).1 ≡ ended) × Starts (trace w (main x y) s).0
  main_serves w h s =
      let (ends, o) = serving (main-Finishes x y w s) tt (trace-AllSucceed y w (main x y) h s) in
      (ends, elim o [ inl n ↦ elim n [ ] | inr s ↦ s ])
