-- ===== src/Tests/Estate.antt =====
-- What the world in memory has for its instance, and that it is ready.
use k8sgrowthbook_controller.Prelude.{◌≡◌, refl, arith, [], ◌∷◌, none, some, append, map, str}
use k8sgrowthbook_controller.Prelude.{text_eq}
use k8sgrowthbook_controller.Prelude.Dict.{lookup}
use k8sgrowthbook_controller.Api
use k8sgrowthbook_controller.Prelude.Dict.{insert}
use k8sgrowthbook_controller.Growthbook.Feature.{
  convert_environments, convert_environment, convert_rules, convert_rule,
}
use k8sgrowthbook_controller.Tests.Fixtures.{feature_dark_mode}
use k8sgrowthbook_controller.Effects.{Selector}
use k8sgrowthbook_controller.Controller.Organizations.{member}
use k8sgrowthbook_controller.Controller.Features.{feature_of}
use k8sgrowthbook_controller.Controller.Secrets.{token_field_name}
use k8sgrowthbook_controller.Controller.Tokens.{sdk_key, slice_to}
use k8sgrowthbook_controller.Growthbook.Feature.{from_v1beta1}
use k8sgrowthbook_controller.Documents.Feature.{Feature}
use k8sgrowthbook_controller.Effects.{ok, Database}
use k8sgrowthbook_controller.Refinement.Loops.{AllReady}
use k8sgrowthbook_controller.Refinement.Population.{user_line}
use k8sgrowthbook_controller.Refinement.Membership.{organization_line}
use k8sgrowthbook_controller.Refinement.World.{IsWorld}
use k8sgrowthbook_controller.Refinement.Tenants.{Tenant}
use k8sgrowthbook_controller.Refinement.Convergence.{Estate}
use k8sgrowthbook_controller.Refinement.Connected.{IsReachable}
use k8sgrowthbook_controller.Safety.Reports.{IsReported}
use k8sgrowthbook_controller.Tests.World.{State, world_memory, contents, shared_secret}
use k8sgrowthbook_controller.Tests.Apart.{world_with-IsWorld}
use k8sgrowthbook_controller.Tests.Fixtures.{externals, main_instance, ann_with_secret, gone, db}
use k8sgrowthbook_controller.Tests.Fixtures.{acme_with_users, dark_mode, web, ann_secret, web_token}
use k8sgrowthbook_controller.Tests.Fixtures.{user_ann, organization_acme, connection_web}
use k8sgrowthbook_controller.Tests.Fixtures.{existing_dark_mode}

abbrev pub whole_world : (db : Database) → IsWorld externals db world_memory contents
whole_world = world_with-IsWorld (ok shared_secret) (ann_with_secret ∷ gone ∷ [])

abbrev pub everything : Selector
everything = record { handle = 0 }

-- The user that goes has a document, and so has each of the others but Ann.
abbrev pub start : State
start = record {
  users = (str "gone", user_ann) ∷ [];
  organizations = (str "acme", organization_acme) ∷ [];
  features = (str "dark-mode", existing_dark_mode) ∷ [];
  connections = (str "web", connection_web) ∷ [];
  patched = [];
}

pub has_password : lookup ann_secret.password_field shared_secret.values ≡ some (str "s3cret")
unfolding lookup
has_password = ground arith

pub has_token : lookup (token_field_name web_token) shared_secret.values ≡ some (str "sdk-abcd")
unfolding lookup str text_eq
has_token = refl

pub key_of_token : sdk_key (str "sdk-abcd") ≡ some (str "sdk-abcd")
unfolding sdk_key slice_to str text_eq
key_of_token = refl

abbrev pub users_ready :
    AllReady (user_line externals world_memory main_instance) (ann_with_secret ∷ gone ∷ [])
users_ready = (
  record {
    ref = ann_secret;
    secret = shared_secret;
    password = str "s3cret";
    named_secret = refl;
    held = λ s. refl;
    has_password = has_password;
  },
  (tt, tt),
)

abbrev pub organizations_ready :
    AllReady (organization_line externals world_memory main_instance) (acme_with_users ∷ [])
organizations_ready = (
  (
    append none (map (member (str "admin")) (ann_with_secret ∷ gone ∷ [])),
    (everything, ann_with_secret ∷ gone ∷ [], refl, λ s. refl, refl),
  ),
  tt,
)

-- The feature as it is converted for the organization.
abbrev pub converted_feature : Feature
converted_feature = record feature_dark_mode {
  owner = str "growthbook-controller";
  organization = Api.Organization.get_id acme_with_users;
}

pub feature_converted :
    from_v1beta1 externals.parse_float (feature_of acme_with_users) (dark_mode none)
    ≡ some converted_feature
unfolding from_v1beta1 convert_environments convert_environment convert_rules convert_rule
    Api.Feature.get_id Api.Meta.or_name insert
feature_converted = refl

abbrev pub tenant : Tenant externals world_memory main_instance acme_with_users
tenant = record {
  selector = everything;
  features = dark_mode none ∷ [];
  clients = web ∷ [];
  selects = refl;
  features_listed = λ s. refl;
  clients_listed = λ s. refl;
  features_ready = ((converted_feature, feature_converted), tt);
  clients_ready = (
    record {
      ref = web_token;
      secret = shared_secret;
      token = str "sdk-abcd";
      key = str "sdk-abcd";
      named_secret = refl;
      held = λ s. refl;
      has_token = has_token;
      key_of_token = key_of_token;
    },
    tt,
  );
}

abbrev pub estate : Estate externals world_memory main_instance
estate = record {
  selector = everything;
  users = ann_with_secret ∷ gone ∷ [];
  organizations = acme_with_users ∷ [];
  selects = refl;
  users_listed = λ s. refl;
  organizations_listed = λ s. refl;
  users_ready = users_ready;
  organizations_ready = organizations_ready;
  tenants = (tenant, tt);
}

abbrev pub reachable : IsReachable externals world_memory main_instance
reachable = record {
  username = [];
  password = [];
  client = record { handle = 1 };
  path = str "/growthbook";
  credentials = (refl, refl);
  connects = λ s. refl;
  parses = refl;
}

abbrev pub reported : IsReported world_memory main_instance
reported = record { latest = λ s. main_instance; gets = λ s. refl; patches = λ j s. refl }

abbrev pub world : IsWorld externals db world_memory contents
world = whole_world db
