-- ===== src/Start/Protocol.antt =====
-- How the program is to start, as a state machine: the steps that may be taken in each phase, and
-- what the replies lead to.
use k8sgrowthbook_controller.Prelude.{
  ℕ, ◌≡◌, ◌≢◌, Bool, true, false, Option, none, some, List, [], ◌∷◌,
}
use k8sgrowthbook_controller.Prelude.{GoString, str, if◌then◌else◌}
use k8sgrowthbook_controller.Api.Meta.{Object, ObjectKey}
use k8sgrowthbook_controller.Effects.{Error, Result, ok, err, Prog, Selector}
use k8sgrowthbook_controller.Controller.Externals.{Externals}
use k8sgrowthbook_controller.Controller.Provider.{mongo_db_provider}
use k8sgrowthbook_controller.Controller.Reconciler.{reconcile_request}
use k8sgrowthbook_controller.Controller.Watches.{secret_index, requests_for_change_by_field}
use k8sgrowthbook_controller.Controller.Watches.{requests_for_change_by_selector}
use k8sgrowthbook_controller.Start.Steps.{
  Flags, Options, Manager, RestConfig, Registration, ObjectType, Step, Answer, Event, End, ended,
  exited, parse_flags, getenv, get_config_or_die, new_manager, add_healthz_check, add_readyz_check,
  index_field, complete, start_manager, instance_type, user_type, organization_type, client_type,
  feature_type, secret_type,
}
use k8sgrowthbook_controller.Start.Options.{StartExternals, flag_set}

pub data Phase : Type 0 where
  fresh : Phase
  parsed : Flags → Phase
  -- with the namespaces to restrict the cache to
  scoped : Flags → Option (List GoString) → Phase
  configured : Flags → Option (List GoString) → RestConfig → Phase
  created : Flags → Manager → Phase
  live : Flags → Manager → Phase
  probed : Flags → Manager → Phase
  indexed : Flags → Manager → Phase
  controlled : Manager → Phase
  stopped : Manager → Phase

-- A reply takes the start to a phase, or ends the program with an exit status.
pub data Verdict : Type 0 where
  goes : Phase → Verdict
  quits : ℕ → Verdict

module _ {A : Type 0} where
  -- For a library function that may end the program itself.
  abbrev pub unless_status : (A → Phase) → Result ℕ A → Verdict
  unless_status f (ok a) = goes (f a)
  unless_status f (err n) = quits n

  abbrev pub unless_error : (A → Phase) → Result Error A → Verdict
  unless_error f (ok a) = goes (f a)
  unless_error f (err _) = quits 1

abbrev same : ObjectType → ObjectType → Bool
same instance_type instance_type = true
same user_type user_type = true
same organization_type organization_type = true
same client_type client_type = true
same feature_type feature_type = true
same secret_type secret_type = true
same _ _ = false

module _ {A B : Type 0} (type_of : A → ObjectType) (content : A → B) where
  -- What a list says first of a type.
  abbrev pub first_of : ObjectType → List A → Option B
  first_of t [] = none
  first_of t (a ∷ list) =
      let rest = first_of t list in if same t (type_of a) then some (content a) else rest

-- The cache of a type holds only what the watch selector selects, but for users and secrets.
abbrev pub cached : Selector → ObjectType → Option Selector
cached selector user_type = none
cached selector secret_type = none
cached selector _ = some selector

-- A change of a secret wakes the instances that refer to it, one of a resource those that select it.
abbrev pub woken : ObjectType → Option (Object → Prog Error (List ObjectKey))
woken instance_type = none
woken secret_type = some (requests_for_change_by_field (str ".metadata.secret"))
woken _ = some requests_for_change_by_selector

module _ (x : Externals) (y : StartExternals) where
  -- The options are read off the flags: the addresses, the leader election, the timeout, the
  -- namespaces, and the watch selector for the cache of instances, organizations, features and
  -- clients. The flags for the Kubernetes client and for rate limits have no part in them.
  pub record AreFor (flags : Flags) (namespaces : Option (List GoString)) (o : Options)
      : Type 0 where
    pub selector : Selector
    pub accepted : y.get_watch_selector flags.watch_options ≡ ok selector
    pub restricted :
        (t : ObjectType) → first_of (λ p. p.0) (λ p. p.1) t o.cache.by_object ≡ cached selector t
    pub in_namespaces : o.cache.default_namespaces ≡ namespaces
    pub metrics : o.metrics_bind_address ≡ flags.metrics_addr
    pub health : o.health_probe_bind_address ≡ flags.health_addr
    pub elected : o.leader_election ≡ flags.leader_election_options.enable
    pub released :
        o.leader_election_release_on_cancel ≡ flags.leader_election_options.release_on_cancel
    pub leases : o.lease_duration ≡ flags.leader_election_options.lease_duration
    pub renews : o.renew_deadline ≡ flags.leader_election_options.renew_deadline
    pub retries : o.retry_period ≡ flags.leader_election_options.retry_period
    pub graceful : o.graceful_shutdown_timeout ≡ flags.graceful_shutdown_timeout
    pub plain_id :
        flags.watch_options.label_selector ≡ []
        → o.leader_election_id ≡ str "growthbook-controller-leader-election"
    pub own_id :
        flags.watch_options.label_selector ≢ []
        → o.leader_election_id
          ≡ y.generate_id
              (str "growthbook-controller-leader-election")
              flags.watch_options.label_selector

  -- The controller reconciles instances, and is woken as it should be.
  pub record IsController (flags : Flags) (r : Registration) : Type 0 where
    pub instances : r.for_type ≡ instance_type
    pub wakes : (t : ObjectType) → first_of (λ w. w.watched) (λ w. w.requests) t r.watches ≡ woken t
    pub workers : r.max_concurrent_reconciles ≡ flags.concurrent
    pub reconciles : r.reconciler ≡ reconcile_request x (mongo_db_provider x)

  -- The steps that may be taken in a phase, and what the replies to them lead to.
  pub data Takes : Phase → (c : Step) → (Answer c → Verdict) → Type 0 where
    parses : Takes fresh (parse_flags flag_set) (unless_status parsed)
    scopes :
        {flags : Flags}
        → flags.watch_options.all_namespaces ≡ false
        → Takes
            (parsed flags)
            (getenv (str "RUNTIME_NAMESPACE"))
            (λ namespace. goes (scoped flags (some (namespace ∷ []))))
    configures :
        {flags : Flags} {namespaces : Option (List GoString)}
        → Takes
            (scoped flags namespaces)
            get_config_or_die
            (unless_status (configured flags namespaces))
    creates :
        {flags : Flags} {namespaces : Option (List GoString)} {config : RestConfig} (o : Options)
        → AreFor flags namespaces o
        → Takes
            (configured flags namespaces config)
            (new_manager config o)
            (unless_error (created flags))
    probes_live :
        {flags : Flags} {m : Manager}
        → Takes
            (created flags m)
            (add_healthz_check m (str "healthz"))
            (unless_error (λ _. live flags m))
    probes_ready :
        {flags : Flags} {m : Manager}
        → Takes
            (live flags m)
            (add_readyz_check m (str "readyz"))
            (unless_error (λ _. probed flags m))
    indexes :
        {flags : Flags} {m : Manager}
        → Takes
            (probed flags m)
            (index_field m instance_type (str ".metadata.secret") (secret_index x))
            (unless_error (λ _. indexed flags m))
    controls :
        {flags : Flags} {m : Manager} (r : Registration)
        → IsController flags r
        → Takes (indexed flags m) (complete m r) (unless_error (λ _. controlled m))
    starts : {m : Manager} → Takes (controlled m) (start_manager m) (unless_error (λ _. stopped m))

  -- A start from a phase on: it ends when the manager has stopped, and exits at once where the watch
  -- selector is refused or a reply says so.
  pub data Finishes : Phase → List Event → End → Type 0 where
    serves : {m : Manager} → Finishes (stopped m) [] ended
    refuses :
        {flags : Flags} (e : Error)
        → y.get_watch_selector flags.watch_options ≡ err e
        → Finishes (parsed flags) [] (exited 1)
    everywhere :
        {flags : Flags} {events : List Event} {end : End}
        → flags.watch_options.all_namespaces ≡ true
        → Finishes (scoped flags none) events end
        → Finishes (parsed flags) events end
    stops :
        {p : Phase} {c : Step} {next : Answer c → Verdict} {r : Answer c} {n : ℕ}
        → Takes p c next
        → next r ≡ quits n
        → Finishes p (record { taken = c; answer = r } ∷ []) (exited n)
    proceeds :
        {p q : Phase} {c : Step} {next : Answer c → Verdict} {r : Answer c} {events : List Event}
        {end : End}
        → Takes p c next
        → next r ≡ goes q
        → Finishes q events end
        → Finishes p (record { taken = c; answer = r } ∷ events) end
