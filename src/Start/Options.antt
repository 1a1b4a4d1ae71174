-- ===== src/Start/Options.antt =====
-- The flags and the options of the manager, of main.go, and the scheme.
use k8sgrowthbook_controller.Prelude.{List, [], ◌∷◌, none, GoString, str, pos, ◌++◌, ◌*◌}
use k8sgrowthbook_controller.Prelude.{is_empty, if◌then◌else◌}
use k8sgrowthbook_controller.Effects.{Result, Error, Selector}
use k8sgrowthbook_controller.Start.Steps.{
  Flag, string_var, int_var, duration_var, bind_client_options,
}
use k8sgrowthbook_controller.Start.Steps.{
  bind_log_options, bind_leader_election_options, bind_rate_limiter_options,
}
use k8sgrowthbook_controller.Start.Steps.{
  bind_kube_config_options, bind_watch_options, WatchOptions, Flags, Options,
}
use k8sgrowthbook_controller.Start.Steps.{
  ObjectType, instance_type, user_type, organization_type, client_type, feature_type,
}
use k8sgrowthbook_controller.Start.Steps.{
  RegisteredType, object_of, list_of, SchemePart, client_go_types, core_v1_types, own_types,
}

-- The library functions of the start: `leaderelection.GenerateID` and `helper.GetWatchSelector`.
pub record StartExternals : Type 0 where
  pub generate_id : GoString → GoString → GoString
  pub get_watch_selector : WatchOptions → Result Error Selector

abbrev pub controller_name : GoString
controller_name = str "growthbook-controller"

-- The types that the files of api/v1beta1 register, and the scheme with them.
abbrev pub client_types : List RegisteredType
client_types = object_of client_type ∷ list_of client_type ∷ []

abbrev pub feature_types : List RegisteredType
feature_types = object_of feature_type ∷ list_of feature_type ∷ []

abbrev pub instance_types : List RegisteredType
instance_types = object_of instance_type ∷ list_of instance_type ∷ []

abbrev pub organization_types : List RegisteredType
organization_types = object_of organization_type ∷ list_of organization_type ∷ []

abbrev pub user_types : List RegisteredType
user_types = object_of user_type ∷ list_of user_type ∷ []

abbrev pub scheme : List SchemePart
scheme =
    client_go_types
    ∷ own_types
        (client_types ++ (feature_types ++ (instance_types ++ (organization_types ++ user_types))))
    ∷ core_v1_types
    ∷ []

abbrev pub flag_set : List Flag
flag_set =
    string_var (str "metrics-addr") (str ":9556")
    ∷ string_var (str "health-addr") (str ":9557")
    ∷ int_var (str "concurrent") (pos 4)
    ∷ duration_var (str "graceful-shutdown-timeout") (pos (600 * 1000000000))
    ∷ bind_client_options
    ∷ bind_log_options
    ∷ bind_leader_election_options
    ∷ bind_rate_limiter_options
    ∷ bind_kube_config_options
    ∷ bind_watch_options
    ∷ []

unfoldable pub leader_election_id : StartExternals → WatchOptions → GoString
leader_election_id x watch =
    let id = controller_name ++ (str "-" ++ str "leader-election") in
    if is_empty watch.label_selector then id else x.generate_id id watch.label_selector

abbrev pub cached_by : Selector → List (ObjectType × Selector)
cached_by watch_selector =
    (instance_type, watch_selector)
    ∷ (organization_type, watch_selector)
    ∷ (feature_type, watch_selector)
    ∷ (client_type, watch_selector)
    ∷ []

unfoldable pub manager_options : StartExternals → Flags → Selector → Options
manager_options x flags watch_selector = record {
  scheme = scheme;
  metrics_bind_address = flags.metrics_addr;
  health_probe_bind_address = flags.health_addr;
  leader_election = flags.leader_election_options.enable;
  leader_election_release_on_cancel = flags.leader_election_options.release_on_cancel;
  lease_duration = flags.leader_election_options.lease_duration;
  renew_deadline = flags.leader_election_options.renew_deadline;
  retry_period = flags.leader_election_options.retry_period;
  graceful_shutdown_timeout = flags.graceful_shutdown_timeout;
  leader_election_id = leader_election_id x flags.watch_options;
  cache = record { by_object = cached_by watch_selector; default_namespaces = none };
}
