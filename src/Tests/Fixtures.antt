-- ===== src/Tests/Fixtures.antt =====
-- The inputs of the tests: an instance with a user, an organization and a feature.
use k8sgrowthbook_controller.Prelude.{Bool, true, false, Option, none, some, List, [], ◌∷◌, pos}
use k8sgrowthbook_controller.Prelude.{GoString, str}
use k8sgrowthbook_controller.Api
use k8sgrowthbook_controller.Api.Meta.{Object, Time, LabelSelector, SecretReference}
use k8sgrowthbook_controller.Api.Organization.{GrowthbookOrganization}
use k8sgrowthbook_controller.Api.User.{GrowthbookUser}
use k8sgrowthbook_controller.Api.Feature.{GrowthbookFeature, Environment}
use k8sgrowthbook_controller.Api.Client.{GrowthbookClient, TokenSecretReference}
use k8sgrowthbook_controller.Api.Instance.{GrowthbookInstance}
use k8sgrowthbook_controller.Documents.User.{User}
use k8sgrowthbook_controller.Documents.Organization.{Organization, empty_organization}
use k8sgrowthbook_controller.Documents.Feature.{Feature, empty_feature, EnvironmentSetting}
use k8sgrowthbook_controller.Documents.Feature.{FeatureRule}
use k8sgrowthbook_controller.Documents.SdkConnection.{SdkConnection, empty_sdk_connection}
use k8sgrowthbook_controller.Effects.{Error, errors_new, Result, ok, Database}
use k8sgrowthbook_controller.Controller.Externals.{Externals}

-- Library functions, with a parser of URIs to choose.
abbrev pub externals_with : Result Error GoString → Externals
externals_with path = record {
  parse_float = λ s. (0, none);
  scrypt_key = λ password salt n r p length. ok (7 ∷ 200 ∷ []);
  parse_url_path = λ uri. path;
  label_selector_as_selector = λ s. ok (record { handle = 0 });
  requirements = λ s. [];
  add = λ s rs. s;
  set_status_condition = λ cs c. c ∷ cs;
  add_finalizer = λ fs f. f ∷ fs;
  remove_finalizer = λ fs f. [];
}

abbrev pub externals : Externals
externals = externals_with (ok (str "/growthbook"))

abbrev pub no_path : Error
no_path = errors_new (str "invalid URI")

abbrev pub object_named : GoString → Option Time → Object
object_named name deletion = record {
  type_meta = record {
    group = str "growthbook.infra.doodle.com";
    version = str "v1beta1";
    kind = [];
  };
  object_meta = record {
    name = name;
    namespace = str "apps";
    labels = (str "app", str "web") ∷ [];
    finalizers = [];
    deletion_timestamp = deletion;
    generation = pos 3;
  };
}

abbrev pub web_selector : Option LabelSelector
web_selector = some (record { match_labels = (str "app", str "web") ∷ []; match_expressions = [] })

abbrev pub instance_with : Option Time → Bool → GrowthbookInstance
instance_with deletion prune = record {
  object = object_named (str "main") deletion;
  spec = record {
    mongo_db = record { uri = str "mongodb://db"; secret = none };
    interval = some (pos 60);
    prune = prune;
    timeout = none;
    suspend = false;
    resource_selector = web_selector;
  };
  status = record {
    conditions = [];
    observed_generation = pos 0;
    last_reconcile_duration = pos 0;
    sub_resource_catalog = [];
  };
}

-- A live instance that prunes, and one that is being deleted.
abbrev pub main_instance : GrowthbookInstance
main_instance = instance_with none true

abbrev pub deleted_instance : GrowthbookInstance
deleted_instance = instance_with (some 5) true

abbrev pub ann : GrowthbookUser
ann = record {
  object = object_named (str "ann") none;
  spec = record { name = []; id = []; email = str "ann@example.com"; secret = none };
}

abbrev pub ann_secret : SecretReference
ann_secret = record { name = str "ann"; user_field = []; password_field = str "password" }

abbrev pub ann_with_secret : GrowthbookUser
ann_with_secret = record ann { spec = record ann.spec { secret = some ann_secret } }

abbrev pub gone : GrowthbookUser
gone = record ann { object = object_named (str "gone") (some 4) }

abbrev pub acme : GrowthbookOrganization
acme = record {
  object = object_named (str "acme") none;
  spec = record {
    name = [];
    id = [];
    owner_email = str "ann@example.com";
    users = [];
    resource_selector = web_selector;
  };
}

-- With the users that a selector selects as its members.
abbrev pub acme_with_users : GrowthbookOrganization
acme_with_users = record acme {
  spec = record acme.spec {
    users = some (record { selector = web_selector; role = str "admin" }) ∷ [];
  };
}

-- A client with a token.
abbrev pub web_token : TokenSecretReference
web_token = record { name = str "web"; token_field = [] }

abbrev pub web : GrowthbookClient
web = record {
  object = object_named (str "web") none;
  spec = record {
    languages = none;
    name = [];
    environment = str "dev";
    encrypt_payload = false;
    project = [];
    include_visual_experiments = false;
    include_draft_experiments = false;
    include_experiment_names = false;
    id = [];
    token_secret = some web_token;
  };
}

abbrev pub db : Database
db = record { client = record { handle = 1 }; name = str "growthbook" }

abbrev pub user_ann : User
user_ann = record {
  id = str "ann";
  email = str "ann@example.com";
  name = str "ann";
  password_hash = str "00ff:1234";
  revision = pos 0;
}

abbrev pub organization_acme : Organization
organization_acme = record empty_organization { id = str "acme"; name = str "acme" }

abbrev pub connection_web : SdkConnection
connection_web = record empty_sdk_connection { id = str "web"; key = str "sdk-abcd" }

-- A rule with an ID or without, and with a bucket version or without.
abbrev pub rule_with : GoString → FeatureRule
rule_with id = record {
  id = id;
  type = str "force";
  description = [];
  condition = [];
  enabled = true;
  schedule_rules = none;
  saved_groups = none;
  prerequisites = none;
  value = str "on";
  coverage = 0;
  hash_attribute = [];
  tracking_key = [];
  fallback_attribute = none;
  disable_sticky_bucketing = none;
  bucket_version = none;
  min_bucket_version = none;
  namespace = none;
  values = none;
  experiment_id = [];
  variations = none;
}

abbrev pub setting_with : List FeatureRule → EnvironmentSetting
setting_with rules = record { enabled = true; rules = some rules }

-- The rule of the specification, and what it is converted to.
abbrev pub spec_rule : Option GoString → Api.Feature.FeatureRule
spec_rule bucket_version = record {
  type = str "force";
  description = [];
  condition = [];
  enabled = true;
  schedule_rules = [];
  saved_groups = [];
  prerequisites = [];
  value = str "on";
  coverage = [];
  hash_attribute = [];
  tracking_key = [];
  fallback_attribute = none;
  disable_sticky_bucketing = none;
  bucket_version = bucket_version;
  min_bucket_version = none;
  namespace = none;
  values = [];
  experiment_id = [];
  variations = [];
}

abbrev pub environment_with : Option GoString → Environment
environment_with bucket_version = record {
  name = str "dev";
  enabled = true;
  rules = some (spec_rule bucket_version ∷ []);
}

abbrev pub dark_mode : Option GoString → GrowthbookFeature
dark_mode bucket_version = record {
  object = object_named (str "dark-mode") none;
  spec = record {
    id = [];
    description = [];
    tags = none;
    default_value = str "off";
    value_type = str "boolean";
    environments = environment_with bucket_version ∷ [];
  };
}

abbrev pub feature_dark_mode : Feature
feature_dark_mode = record empty_feature {
  id = str "dark-mode";
  tags = some [];
  default_value = str "off";
  value_type = str "boolean";
  environments = some [];
  environment_settings = some ((str "dev", setting_with (rule_with [] ∷ [])) ∷ []);
}

-- The document that GrowthBook has: another environment, and a rule of its own.
abbrev pub existing_dark_mode : Feature
existing_dark_mode = record feature_dark_mode {
  environment_settings = some (
      (str "dev", setting_with (rule_with (str "fr_1") ∷ rule_with [] ∷ []))
      ∷ (str "prod", setting_with [])
      ∷ []);
}
