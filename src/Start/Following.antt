-- ===== src/Start/Following.antt =====
-- `main` follows the protocol of the start.
use mathlib.Core.Path.{subst}
use k8sgrowthbook_controller.Prelude.{
  ◌≡◌, ◌≢◌, refl, sym, Bool, true, false, Option, none, some, List, [], ◌∷◌, GoString, str,
  is_empty,
}
use k8sgrowthbook_controller.Effects.{Error, Result, ok, err, Selector}
use k8sgrowthbook_controller.Controller.Externals.{Externals}
use k8sgrowthbook_controller.Controller.Provider.{mongo_db_provider}
use k8sgrowthbook_controller.Start.Steps.{
  Startup, exit, step, ◌>>=◌, Step, Answer, World, trace, Flags, Manager, Options, WatchOptions,
  ObjectType, get_config_or_die, new_manager, or_exit, or_quit, instance_type, user_type,
  organization_type, client_type, feature_type, secret_type,
}
use k8sgrowthbook_controller.Start.Options.{
  StartExternals, manager_options, leader_election_id, cached_by,
}
use k8sgrowthbook_controller.Start.Setup.{registration, setup_with_manager}
use k8sgrowthbook_controller.Start.Main.{
  main, serve, restrict_if, restrict_namespaces, in_namespace,
}
use k8sgrowthbook_controller.Start.Protocol.{
  Phase, fresh, parsed, scoped, created, Verdict, goes, quits, AreFor, IsController, Takes, parses,
  scopes, configures, creates, probes_live, probes_ready, indexes, controls, starts, Finishes,
  serves, refuses, everywhere, stops, proceeds, first_of, cached,
}
use k8sgrowthbook_controller.Start.Runs.{Every, Every-weaken, trace-Every}

module _ (x : Externals) (y : StartExternals) where
  -- What is left of a program in a phase.
  abbrev Goes : {A : Type 0} → Phase → Startup A → Type 0
  Goes p m = Every m (Finishes x y p)

  abbrev Obeyed : {A : Type 0} → Verdict → Startup A → Type 0
  Obeyed (goes q) m = Goes q m
  Obeyed (quits n) m = m ≡ exit n

  module _ {A : Type 0} {p : Phase} {c : Step} {next : Answer c → Verdict} (t : Takes x y p c next)
      (k : Answer c → Startup A) where
    obeying :
        (r : Answer c) (v : Verdict)
        → next r ≡ v
        → Obeyed v (k r)
        → Every (k r) (λ events end. Finishes x y p (record { taken = c; answer = r } ∷ events) end)
    obeying r (goes q) e h = Every-weaken (k r) _ _ (λ events end. proceeds t e) h
    obeying r (quits n) e h =
        subst (λ m. Every m (λ events. Finishes x y p (record { taken = c; answer = r } ∷ events)))
          (sym h) (stops t e)

    taking : ((r : Answer c) → Obeyed (next r) (k r)) → Goes p (step c k)
    taking h = λ r. obeying r (next r) refl (h r)

  registered :
      (flags : Flags)
      → IsController x y flags (registration x (mongo_db_provider x) flags.concurrent)
  unfolding registration
  registered flags = record {
    instances = refl;
    wakes = elim [
      | instance_type ↦ refl
      | user_type ↦ refl
      | organization_type ↦ refl
      | client_type ↦ refl
      | feature_type ↦ refl
      | secret_type ↦ refl
    ];
    workers = refl;
    reconciles = refl;
  }

  serve-Goes : (flags : Flags) (m : Manager) → Goes (created flags m) (serve x y flags m)
  unfolding serve setup_with_manager ◌>>=◌ or_exit
  serve-Goes flags m = taking probes_live _ elim [
    | err e ↦ refl
    | ok _ ↦ taking probes_ready _ elim [
      | err e ↦ refl
      | ok _ ↦ taking indexes _ elim [
        | err e ↦ refl
        | ok _ ↦
            taking (controls _ (registered flags)) _
              elim [ err e ↦ refl | ok _ ↦ taking starts _ elim [ err e ↦ refl | ok _ ↦ serves ] ]
      ]
    ]
  ]

  abbrev id_prefix : GoString
  id_prefix = str "growthbook-controller-leader-election"

  plain_id :
      (watch : WatchOptions) → watch.label_selector ≡ [] → leader_election_id y watch ≡ id_prefix
  unfolding leader_election_id str
  plain_id watch e = rw e refl

  is_empty-false : (s : GoString) → s ≢ [] → is_empty s ≡ false
  is_empty-false [] h = elim (h refl) [ ]
  is_empty-false (c ∷ s) h = refl

  own_id :
      (watch : WatchOptions)
      → watch.label_selector ≢ []
      → leader_election_id y watch ≡ y.generate_id id_prefix watch.label_selector
  unfolding leader_election_id str
  own_id watch h = rw (is_empty-false watch.label_selector h) refl

  module _ (flags : Flags) (selector : Selector)
      (accepted : y.get_watch_selector flags.watch_options ≡ ok selector) where
    restricted :
        (t : ObjectType) → first_of (λ p. p.0) (λ p. p.1) t (cached_by selector) ≡ cached selector t
    restricted instance_type = refl
    restricted user_type = refl
    restricted organization_type = refl
    restricted client_type = refl
    restricted feature_type = refl
    restricted secret_type = refl

    everywhere-AreFor : AreFor x y flags none (manager_options y flags selector)
    unfolding manager_options
    everywhere-AreFor = record {
      selector = selector;
      accepted = accepted;
      restricted = restricted;
      in_namespaces = refl;
      metrics = refl;
      health = refl;
      elected = refl;
      released = refl;
      leases = refl;
      renews = refl;
      retries = refl;
      graceful = refl;
      plain_id = plain_id flags.watch_options;
      own_id = own_id flags.watch_options;
    }

  in_namespace-AreFor :
      (flags : Flags) (o : Options) (namespaces : List GoString)
      → AreFor x y flags none o
      → AreFor x y flags (some namespaces) (in_namespace o namespaces)
  in_namespace-AreFor flags o namespaces a = record {
    selector = a.selector;
    accepted = a.accepted;
    restricted = a.restricted;
    in_namespaces = refl;
    metrics = a.metrics;
    health = a.health;
    elected = a.elected;
    released = a.released;
    leases = a.leases;
    renews = a.renews;
    retries = a.retries;
    graceful = a.graceful;
    plain_id = a.plain_id;
    own_id = a.own_id;
  }

  -- What `main` does with the options.
  abbrev managing : Flags → Options → Startup Unit
  managing flags o = step get_config_or_die or_quit >>= λ config.
      step (new_manager config o) or_exit >>= λ mgr. serve x y flags mgr

  managing-Goes :
      (flags : Flags) (namespaces : Option (List GoString)) (o : Options)
      → AreFor x y flags namespaces o
      → Goes (scoped flags namespaces) (managing flags o)
  unfolding ◌>>=◌ or_exit or_quit
  managing-Goes flags namespaces o a = taking configures _ elim [
    | err n ↦ refl
    | ok config ↦ taking (creates o a) _ elim [ err e ↦ refl | ok m ↦ serve-Goes flags m ]
  ]

  asking-Goes :
      (flags : Flags) (o : Options) (all : Bool)
      → flags.watch_options.all_namespaces ≡ all
      → AreFor x y flags none o
      → Goes (parsed flags) (restrict_if all o >>= managing flags)
  unfolding ◌>>=◌
  asking-Goes flags o true e a =
      Every-weaken (managing flags o) (Finishes x y (scoped flags none)) _
        (λ events end. everywhere e) (managing-Goes flags none o a)
  asking-Goes flags o false e a =
      taking (scopes {flags = flags} e)
        (λ namespace. managing flags (in_namespace o (namespace ∷ [])))
        λ namespace.
          managing-Goes flags (some (namespace ∷ [])) (in_namespace o (namespace ∷ []))
            (in_namespace-AreFor flags o (namespace ∷ []) a)

  restricting-Goes :
      (flags : Flags) (o : Options)
      → AreFor x y flags none o
      → Goes (parsed flags) (restrict_namespaces flags o >>= managing flags)
  unfolding restrict_namespaces
  restricting-Goes flags o a = asking-Goes flags o flags.watch_options.all_namespaces refl a

  selecting-Goes :
      (flags : Flags) (r : Result Error Selector)
      → y.get_watch_selector flags.watch_options ≡ r
      → Goes (parsed flags) (
          or_exit r >>= λ selector.
          restrict_namespaces flags (manager_options y flags selector) >>= managing flags)
  unfolding ◌>>=◌ or_exit
  selecting-Goes flags (err e) h = refuses e h
  selecting-Goes flags (ok selector) h =
      restricting-Goes flags (manager_options y flags selector) (everywhere-AreFor flags selector h)

  main-Goes : Goes fresh (main x y)
  unfolding main ◌>>=◌ or_quit
  main-Goes = taking parses _ elim [
    | err n ↦ refl
    | ok flags ↦ selecting-Goes flags (y.get_watch_selector flags.watch_options) refl
  ]

  -- Whatever the world replies, `main` follows the protocol of the start, and ends. It parses the
  -- flags, asks for the namespace only if not all are watched, and creates a manager that has
  -- the addresses, the leader election and the timeout of the flags and whose cache is restricted to
  -- that namespace, and to the watch selector for instances, organizations, features and clients, but
  -- not for users and secrets. The flags for the Kubernetes client and its rate limits change nothing
  -- of it. Then `main` adds the probe of liveness and that of readiness, the index of secrets
  -- and the controller, and starts that manager last. It exits with status 1 right after the first
  -- of these that fails, with the library's own status where the flags or the configuration end the
  -- program, and with status 1 before the manager if the watch selector is refused.
  pub main-Finishes :
      {S : Type 0} (w : World S) (s : S)
      → Finishes x y fresh (trace w (main x y) s).0 (trace w (main x y) s).1
  main-Finishes w s = trace-Every w (main x y) _ main-Goes s
