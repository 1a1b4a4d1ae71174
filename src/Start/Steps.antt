-- ===== src/Start/Steps.antt =====
-- The steps by which the program starts: what it asks of pflag, of the environment and of
-- controller-runtime.
use k8sgrowthbook_controller.Prelude.{ℕ, Bool, Option, List, [], ◌∷◌, GoString, ℤ}
use k8sgrowthbook_controller.Api.Meta.{Duration, Object, ObjectKey}
use k8sgrowthbook_controller.Api.Instance.{GrowthbookInstance}
use k8sgrowthbook_controller.Effects.{Error, Result, ok, err, Prog, Selector}
use k8sgrowthbook_controller.Controller.Reconciler.{ReconcileResult}

-- A flag of the program, with its name and default, or the flags that a library binds.
pub data Flag : Type 0 where
  string_var : GoString → GoString → Flag
  int_var : GoString → ℤ → Flag
  duration_var : GoString → Duration → Flag
  bind_client_options : Flag
  bind_log_options : Flag
  bind_leader_election_options : Flag
  bind_rate_limiter_options : Flag
  bind_kube_config_options : Flag
  bind_watch_options : Flag

pub record LeaderElectionOptions : Type 0 where
  pub enable : Bool
  pub release_on_cancel : Bool
  pub lease_duration : Duration
  pub renew_deadline : Duration
  pub retry_period : Duration

pub record WatchOptions : Type 0 where
  pub label_selector : GoString
  pub all_namespaces : Bool

-- The variables that the flags set and the program reads.
pub record Flags : Type 0 where
  pub metrics_addr : GoString
  pub health_addr : GoString
  pub concurrent : ℤ
  pub graceful_shutdown_timeout : Duration
  pub leader_election_options : LeaderElectionOptions
  pub watch_options : WatchOptions

-- The Go types of objects that the program names.
pub data ObjectType : Type 0 where
  instance_type : ObjectType
  user_type : ObjectType
  organization_type : ObjectType
  client_type : ObjectType
  feature_type : ObjectType
  secret_type : ObjectType

-- A type that is registered: that of an object, or that of a list of them.
pub data RegisteredType : Type 0 where
  object_of : ObjectType → RegisteredType
  list_of : ObjectType → RegisteredType

-- A part of a `runtime.Scheme`: all types of a library, or some of the program's own.
pub data SchemePart : Type 0 where
  client_go_types : SchemePart
  core_v1_types : SchemePart
  own_types : List RegisteredType → SchemePart

pub record CacheOptions : Type 0 where
  pub by_object : List (ObjectType × Selector)
  -- `none` for a nil map, which is all namespaces
  pub default_namespaces : Option (List GoString)

-- `ctrl.Options`
pub record Options : Type 0 where
  pub scheme : List SchemePart
  pub metrics_bind_address : GoString
  pub health_probe_bind_address : GoString
  pub leader_election : Bool
  pub leader_election_release_on_cancel : Bool
  pub lease_duration : Duration
  pub renew_deadline : Duration
  pub retry_period : Duration
  pub graceful_shutdown_timeout : Duration
  pub leader_election_id : GoString
  pub cache : CacheOptions

-- A `rest.Config` and a manager, of which the program sees nothing.
pub record RestConfig : Type 0 where
  pub handle : ℕ

pub record Manager : Type 0 where
  pub handle : ℕ

pub data Predicate : Type 0 where
  generation_changed_predicate : Predicate

pub record Watch : Type 0 where
  pub watched : ObjectType
  pub requests : Object → Prog Error (List ObjectKey)

-- What the builder of a controller has been told.
pub record Registration : Type 0 where
  pub for_type : ObjectType
  pub predicates : List Predicate
  pub watches : List Watch
  pub max_concurrent_reconciles : ℤ
  pub reconciler : ObjectKey → Prog (ReconcileResult × Error) ReconcileResult

pub data Step : Type 0 where
  parse_flags : List Flag → Step
  getenv : GoString → Step
  get_config_or_die : Step
  new_manager : RestConfig → Options → Step
  -- the checks are `healthz.Ping`
  add_healthz_check : Manager → GoString → Step
  add_readyz_check : Manager → GoString → Step
  index_field :
      Manager → ObjectType → GoString → (GrowthbookInstance → Prog Error (List GoString)) → Step
  complete : Manager → Registration → Step
  start_manager : Manager → Step

-- A library function that ends the program itself replies with its exit status.
abbrev pub Answer : Step → Type 0
Answer (parse_flags _) = Result ℕ Flags
Answer (getenv _) = GoString
Answer get_config_or_die = Result ℕ RestConfig
Answer (new_manager _ _) = Result Error Manager
Answer (add_healthz_check _ _) = Result Error Unit
Answer (add_readyz_check _ _) = Result Error Unit
Answer (index_field _ _ _ _) = Result Error Unit
Answer (complete _ _) = Result Error Unit
Answer (start_manager _) = Result Error Unit

-- A program that starts: it may end with an exit status.
pub data Startup (A : Type 0) : Type 0 where
  done : A → Startup A
  exit : ℕ → Startup A
  step : (s : Step) → (Answer s → Startup A) → Startup A

infixl 5 ◌>>=◌ ◌>>◌
unfoldable pub ◌>>=◌ : {A B : Type 0} → Startup A → (A → Startup B) → Startup B
done a >>= f = f a
exit n >>= f = exit n
step s k >>= f = step s (λ r. k r >>= f)

abbrev pub ◌>>◌ : {A B : Type 0} → Startup A → Startup B → Startup B
m >> k = m >>= λ _. k

-- `if err != nil { os.Exit(1) }`
unfoldable pub or_exit : {A : Type 0} → Result Error A → Startup A
or_exit (ok a) = done a
or_exit (err _) = exit 1

unfoldable pub or_quit : {A : Type 0} → Result ℕ A → Startup A
or_quit (ok a) = done a
or_quit (err n) = exit n

-- A step with its reply.
pub record Event : Type 0 where
  pub taken : Step
  pub answer : Answer taken

pub data End : Type 0 where
  ended : End
  exited : ℕ → End

-- A world that takes steps in a state, and what a program does there.
abbrev pub World : Type 0 → Type 0
World S = (s : Step) → S → Answer s × S

abbrev pub trace : {A S : Type 0} → World S → Startup A → S → List Event × End
trace w (done a) s = ([], ended)
trace w (exit n) s = ([], exited n)
trace w (step c k) s =
    let (r, s') = w c s in
    let (events, end) = trace w (k r) s' in (record { taken = c; answer = r } ∷ events, end)
