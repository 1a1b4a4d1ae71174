-- ===== src/Growthbook/SdkConnection.antt =====
-- internal/growthbook/sdkconnection.go
use k8sgrowthbook_controller.Prelude.{ℕ, [], ◌∷◌, ◌++◌, GoString, Bytes, str, or_empty}
use k8sgrowthbook_controller.Prelude.{◌==◌, text_eq, if◌then◌else◌}
use k8sgrowthbook_controller.Api.Client.{GrowthbookClient, get_id, get_name}
use k8sgrowthbook_controller.Documents.SdkConnection.{SdkConnection}
use k8sgrowthbook_controller.Effects.{Error, Result, ok, err, Prog, ret, call, ◌>>=◌, ◌>>◌, attempt}
use k8sgrowthbook_controller.Effects.{from_result, Database, Collection, Filter}
use k8sgrowthbook_controller.Effects.{sdk_document, decode_sdk_connection, marshal, now, rand_read}
use k8sgrowthbook_controller.Storage.{collection, find_one, insert_one, update_one, delete_one}
use k8sgrowthbook_controller.Storage.{delete_many, by_id, set_document}
use k8sgrowthbook_controller.Growthbook.Encoding.{base64_encode, remove_byte}

-- `db.Collection("sdkconnections")` and `db.Collection("sdkpayloads")`
unfoldable pub sdk_connections : Database → Collection
unfolding collection
sdk_connections db = collection db (str "sdkconnections")

unfoldable pub sdk_payloads : Database → Collection
unfolding collection
sdk_payloads db = collection db (str "sdkpayloads")

unfoldable pub from_v1beta1 : SdkConnection → GrowthbookClient → SdkConnection
from_v1beta1 s client = record s {
  id = get_id client;
  name = get_name client;
  languages = or_empty client.spec.languages;
  environment = client.spec.environment;
  encrypt_payload = client.spec.encrypt_payload;
  project = client.spec.project;
  include_visual_experiments = client.spec.include_visual_experiments;
  include_draft_experiments = client.spec.include_draft_experiments;
  include_experiment_names = client.spec.include_experiment_names;
}

unfoldable pub delete_sdk_connection : SdkConnection → Database → Prog Error Unit
unfolding sdk_connections
delete_sdk_connection s db = delete_one (sdk_connections db) (by_id s.id)

-- The bytes of a random key as text: base64 with '=', '/' and '+' left out.
unfoldable pub key_text : GoString → Bytes → GoString
key_text prefix b =
    prefix ++ remove_byte b'+' (remove_byte b'/' (remove_byte b'=' (base64_encode b)))

unfoldable pub generate_key : GoString → ℕ → Prog Error GoString
unfolding key_text
generate_key prefix n = do b ← call (rand_read n) from_result; ret (key_text prefix b)

-- `clearPayloadCache`: GrowthBook caches the response payload of an environment.
unfoldable pub clear_payload_cache : SdkConnection → Database → Prog Error Unit
unfolding sdk_payloads
clear_payload_cache s db =
    delete_many (sdk_payloads db)
      ((str "environment", s.environment) ∷ (str "organization", s.organization) ∷ [])

-- The fields of an existing document that the controller sets.
unfoldable pub overlay : SdkConnection → SdkConnection → SdkConnection
overlay existing s = record existing {
  id = s.id;
  key = s.key;
  languages = s.languages;
  name = s.name;
  environment = s.environment;
  encrypt_payload = s.encrypt_payload;
  organization = s.organization;
  project = s.project;
  include_visual_experiments = s.include_visual_experiments;
  include_draft_experiments = s.include_draft_experiments;
}

-- `UpdateSDKConnection` after `FindOne`.
unfoldable pub update_found :
    Database → Collection → Filter → SdkConnection → Result Error Bytes → Prog Error Unit
unfolding clear_payload_cache
update_found db col filter s (err _) = call now λ time. do
  encryption_key ← generate_key [] 32
  signing_key ← generate_key [] 32
  insert_one col (
      sdk_document (record s {
        date_created = time;
        date_updated = time;
        encryption_key = encryption_key;
        proxy = record { signing_key = signing_key };
      }))
  clear_payload_cache s db
update_found db col filter s (ok found) = do
  existing ← call (decode_sdk_connection found) from_result
  existing_bson ← call (marshal (sdk_document existing)) from_result
  update_bson ← call (marshal (sdk_document (overlay existing s))) from_result
  if existing_bson == update_bson
      then ret tt
      else call now λ time. do
        stamped_bson ←
            call (marshal (sdk_document (record (overlay existing s) { date_updated = time })))
              from_result
        update_one col filter (set_document stamped_bson)
        clear_payload_cache s db

unfoldable pub update_sdk_connection : SdkConnection → Database → Prog Error Unit
unfolding sdk_connections update_found
update_sdk_connection s db =
    attempt (find_one (sdk_connections db) (by_id s.id))
      (update_found db (sdk_connections db) (by_id s.id) s)
