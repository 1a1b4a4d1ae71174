-- ===== src/Tests/Indexing.antt =====
-- Tests of the index of secrets.
use k8sgrowthbook_controller.Prelude.{◌≡◌, refl, some, none, [], ◌∷◌, str, false, List, GoString}
use k8sgrowthbook_controller.Api.Meta.{SecretReference}
use k8sgrowthbook_controller.Api.User.{GrowthbookUser}
use k8sgrowthbook_controller.Api.Client.{GrowthbookClient}
use k8sgrowthbook_controller.Effects.{errors_new, ok, err, list_users, list_clients}
use k8sgrowthbook_controller.Effects.{record_event, now}
use k8sgrowthbook_controller.Effects.Runs.{Handler, run, returned}
use k8sgrowthbook_controller.Controller.Watches.{secret_index}
use k8sgrowthbook_controller.Watching.Secrets.{Indexed, secret_index-Indexed}
use k8sgrowthbook_controller.Tests.Fixtures.{externals, main_instance, ann, object_named}

abbrev ann_secret : SecretReference
ann_secret = record {
  name = str "ann";
  user_field = str "username";
  password_field = str "password";
}

abbrev ann_with_secret : GrowthbookUser
ann_with_secret = record ann { spec = record ann.spec { secret = some ann_secret } }

abbrev web : GrowthbookClient
web = record {
  object = object_named (str "web") none;
  spec = record {
    languages = none;
    name = [];
    environment = str "dev";
    encrypt_payload = false;
    project = [];
    include_visual_experiments = false;
    include_draft_experiments = false;
    include_experiment_names = false;
    id = [];
    token_secret = some (record { name = str "web-token"; token_field = [] });
  };
}

-- A server that lists one user and one client.
abbrev listing : Handler Unit
listing (list_users _ _) s = (ok (ann_with_secret ∷ ann ∷ []), s)
listing (list_clients _ _) s = (ok (web ∷ []), s)
listing (record_event _ _ _ _) s = (tt, s)
listing now s = (0, s)
listing _ s = (err (errors_new (str "not served")), s)

secret_index-Indexed_example :
    (keys : List GoString) × (run listing (secret_index externals main_instance) tt
      ≡ (returned keys, tt))
    × Indexed main_instance (ann_with_secret ∷ ann ∷ []) (web ∷ []) keys
secret_index-Indexed_example =
    secret_index-Indexed externals main_instance listing tt tt tt (record { handle = 0 })
      (ann_with_secret ∷ ann ∷ []) (web ∷ []) refl refl refl
