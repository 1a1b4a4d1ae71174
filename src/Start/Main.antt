-- ===== src/Start/Main.antt =====
-- `main` of main.go.
use k8sgrowthbook_controller.Prelude.{List, [], ◌∷◌, some, GoString, Bool, true, false, str}
use k8sgrowthbook_controller.Controller.Externals.{Externals}
use k8sgrowthbook_controller.Controller.Provider.{mongo_db_provider}
use k8sgrowthbook_controller.Start.Steps.{
  Flags, Options, Manager, Startup, done, step, ◌>>=◌, ◌>>◌, or_exit, or_quit,
}
use k8sgrowthbook_controller.Start.Steps.{
  parse_flags, getenv, get_config_or_die, new_manager, add_healthz_check,
}
use k8sgrowthbook_controller.Start.Steps.{add_readyz_check, start_manager}
use k8sgrowthbook_controller.Start.Options.{StartExternals, flag_set, manager_options}
use k8sgrowthbook_controller.Start.Setup.{setup_with_manager}

abbrev pub in_namespace : Options → List GoString → Options
in_namespace opts namespaces = record opts {
  cache = record { by_object = opts.cache.by_object; default_namespaces = some namespaces };
}

-- `if !watchOptions.AllNamespaces { ... }`
abbrev pub restrict_if : Bool → Options → Startup Options
restrict_if true opts = done opts
restrict_if false opts =
    step (getenv (str "RUNTIME_NAMESPACE")) λ namespace. done (in_namespace opts (namespace ∷ []))

unfoldable pub restrict_namespaces : Flags → Options → Startup Options
restrict_namespaces flags opts = restrict_if flags.watch_options.all_namespaces opts

module _ (x : Externals) (y : StartExternals) where
  -- From the manager on. What the manager gives the reconciler, a client, a scheme and a recorder,
  -- is behind the calls of `reconcile_request`.
  unfoldable pub serve : Flags → Manager → Startup Unit
  unfolding or_exit setup_with_manager
  serve flags mgr = do
    step (add_healthz_check mgr (str "healthz")) or_exit
    step (add_readyz_check mgr (str "readyz")) or_exit
    setup_with_manager x (mongo_db_provider x) mgr flags.concurrent >>= or_exit
    step (start_manager mgr) or_exit

  unfoldable pub main : Startup Unit
  unfolding or_exit or_quit restrict_namespaces serve
  main = do
    flags ← step (parse_flags flag_set) or_quit
    watch_selector ← or_exit (y.get_watch_selector flags.watch_options)
    opts ← restrict_namespaces flags (manager_options y flags watch_selector)
    config ← step get_config_or_die or_quit
    mgr ← step (new_manager config opts) or_exit
    serve flags mgr
