-- ===== src/Documents/SdkConnection.antt =====
-- `SDKConnection` of internal/growthbook/sdkconnection.go
use k8sgrowthbook_controller.Prelude.{GoString, Bool, false, Slice, ℤ, pos, none, []}
use k8sgrowthbook_controller.Api.Meta.{Time}

pub record SdkConnectionProxy : Type 0 where
  pub signing_key : GoString

pub record SdkConnection : Type 0 where
  pub id : GoString
  pub key : GoString
  pub languages : Slice GoString
  pub name : GoString
  pub environment : GoString
  pub encrypt_payload : Bool
  pub encryption_key : GoString
  pub organization : GoString
  pub project : GoString
  pub include_visual_experiments : Bool
  pub include_draft_experiments : Bool
  pub include_experiment_names : Bool
  pub date_created : Time
  pub date_updated : Time
  pub proxy : SdkConnectionProxy
  pub revision : ℤ

-- `SDKConnection{}`
abbrev pub empty_sdk_connection : SdkConnection
empty_sdk_connection = record {
  id = [];
  key = [];
  languages = none;
  name = [];
  environment = [];
  encrypt_payload = false;
  encryption_key = [];
  organization = [];
  project = [];
  include_visual_experiments = false;
  include_draft_experiments = false;
  include_experiment_names = false;
  date_created = 0;
  date_updated = 0;
  proxy = record { signing_key = [] };
  revision = pos 0;
}
