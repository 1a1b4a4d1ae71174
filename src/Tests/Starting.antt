-- ===== src/Tests/Starting.antt =====
-- Tests of main.go.
use k8sgrowthbook_controller.Prelude.{◌≡◌, refl, true, false, [], str, pos}
use k8sgrowthbook_controller.Effects.{Error, errors_new, Result, ok, err}
use k8sgrowthbook_controller.Start.Steps.{
  World, trace, ◌>>=◌, ended, exited, Flags, parse_flags, getenv, get_config_or_die, new_manager,
  add_healthz_check, add_readyz_check, index_field, complete, start_manager,
}
use k8sgrowthbook_controller.Start.Options.{StartExternals}
use k8sgrowthbook_controller.Start.Main.{main, serve}
use k8sgrowthbook_controller.Start.Protocol.{fresh, Finishes}
use k8sgrowthbook_controller.Start.Following.{main-Finishes}
use k8sgrowthbook_controller.Start.Serving.{Starts, IsWilling, main_serves}
use k8sgrowthbook_controller.Tests.Fixtures.{externals}

abbrev start_externals : StartExternals
start_externals = record {
  generate_id = λ prefix selector. prefix;
  get_watch_selector = λ o. ok (record { handle = 2 });
}

abbrev default_flags : Flags
default_flags = record {
  metrics_addr = str ":9556";
  health_addr = str ":9557";
  concurrent = pos 4;
  graceful_shutdown_timeout = pos 600;
  leader_election_options = record {
    enable = true;
    release_on_cancel = true;
    lease_duration = pos 35;
    renew_deadline = pos 30;
    retry_period = pos 5;
  };
  watch_options = record { label_selector = []; all_namespaces = false };
}

-- A world where the probe of readiness can be added or not.
abbrev world_with : Result Error Unit → World Unit
world_with ready (parse_flags _) s = (ok default_flags, s)
world_with ready (getenv _) s = (str "apps", s)
world_with ready get_config_or_die s = (ok (record { handle = 3 }), s)
world_with ready (new_manager _ _) s = (ok (record { handle = 4 }), s)
world_with ready (add_healthz_check _ _) s = (ok tt, s)
world_with ready (add_readyz_check _ _) s = (ready, s)
world_with ready (index_field _ _ _ _) s = (ok tt, s)
world_with ready (complete _ _) s = (ok tt, s)
world_with ready (start_manager _) s = (ok tt, s)

abbrev unready : World Unit
unready = world_with (err (errors_new (str "no probe")))

main-Finishes_example :
    Finishes externals start_externals fresh
      (trace unready (main externals start_externals) tt).0
      (trace unready (main externals start_externals) tt).1
main-Finishes_example = main-Finishes externals start_externals unready tt

unready_exits : (trace unready (main externals start_externals) tt).1 ≡ exited 1
unfolding main serve ◌>>=◌
unready_exits = refl

willing : IsWilling start_externals (world_with (ok tt))
willing (parse_flags _) s = (record { handle = 2 }, refl)
willing (getenv _) s = tt
willing get_config_or_die s = tt
willing (new_manager _ _) s = tt
willing (add_healthz_check _ _) s = tt
willing (add_readyz_check _ _) s = tt
willing (index_field _ _ _ _) s = tt
willing (complete _ _) s = tt
willing (start_manager _) s = tt

main_serves_example :
    ((trace (world_with (ok tt)) (main externals start_externals) tt).1 ≡ ended)
    × Starts (trace (world_with (ok tt)) (main externals start_externals) tt).0
main_serves_example = main_serves externals start_externals (world_with (ok tt)) willing tt
