-- ===== src/Effects/Calls.antt =====
-- The calls that leave the program, and the type of each one's reply.
use k8sgrowthbook_controller.Prelude.{ℕ, Option, List, GoString, Bytes}
use k8sgrowthbook_controller.Prelude.Dict.{Dict}
use k8sgrowthbook_controller.Api.Meta.{Time, TypeMeta, Object, ObjectKey}
use k8sgrowthbook_controller.Api.User.{GrowthbookUser}
use k8sgrowthbook_controller.Api.Organization.{GrowthbookOrganization}
use k8sgrowthbook_controller.Api.Client.{GrowthbookClient}
use k8sgrowthbook_controller.Api.Feature.{GrowthbookFeature}
use k8sgrowthbook_controller.Api.Instance.{GrowthbookInstance}
use k8sgrowthbook_controller.Documents.User.{User}
use k8sgrowthbook_controller.Documents.Organization.{Organization}
use k8sgrowthbook_controller.Documents.Feature.{Feature}
use k8sgrowthbook_controller.Documents.SdkConnection.{SdkConnection}
use k8sgrowthbook_controller.Effects.Errors.{Error, Result}

-- `corev1.Secret`; a missing key and a nil map read alike.
pub record Secret : Type 0 where
  pub values : Dict Bytes

-- A `labels.Selector`, of which the program sees nothing.
pub record Selector : Type 0 where
  pub handle : ℕ

-- A connected `mongo.Client`.
pub record MongoClient : Type 0 where
  pub handle : ℕ

pub record Credential : Type 0 where
  pub username : GoString
  pub password : GoString

-- `db.Collection(name)` of a client's database.
pub record Database : Type 0 where
  pub client : MongoClient
  pub name : GoString

pub record Collection : Type 0 where
  pub database : Database
  pub name : GoString

-- A `bson.M` whose values are texts.
abbrev pub Filter : Type 0
Filter = Dict GoString

-- A `bson.D` of update operators, each with the BSON of its operand.
abbrev pub Update : Type 0
Update = Dict Bytes

-- A struct that the program hands to the driver or to `bson.Marshal`.
pub data Document : Type 0 where
  user_document : User → Document
  organization_document : Organization → Document
  feature_document : Feature → Document
  sdk_document : SdkConnection → Document

pub data Call : Type 0 where
  -- the Kubernetes client and the event recorder
  get_instance : ObjectKey → Call
  get_secret : ObjectKey → Call
  get_object : TypeMeta → ObjectKey → Call
  patch_object : Object → Object → Call
  patch_instance_status : GrowthbookInstance → GrowthbookInstance → Call
  list_users : GoString → Selector → Call
  list_organizations : GoString → Selector → Call
  list_features : GoString → Selector → Call
  list_clients : GoString → Selector → Call
  list_instances_in : GoString → Call
  list_instances_by : GoString → GoString → Call
  record_event : GrowthbookInstance → GoString → GoString → GoString → Call
  -- the MongoDB driver
  mongo_connect : GoString → Option Credential → Call
  mongo_disconnect : MongoClient → Call
  mongo_find_one : Collection → Filter → Call
  mongo_insert_one : Collection → Document → Call
  mongo_update_one : Collection → Filter → Update → Call
  mongo_delete_one : Collection → Filter → Call
  mongo_delete_many : Collection → Filter → Call
  -- BSON
  decode_user : Bytes → Call
  decode_organization : Bytes → Call
  decode_feature : Bytes → Call
  decode_sdk_connection : Bytes → Call
  marshal : Document → Call
  -- the clock and the random source
  now : Call
  rand_read : ℕ → Call

-- The driver's write operations reply with the number of documents that they touched.
abbrev pub Reply : Call → Type 0
Reply (get_instance _) = Result Error GrowthbookInstance
Reply (get_secret _) = Result Error Secret
Reply (get_object _ _) = Result Error Object
Reply (patch_object _ _) = Result Error Unit
Reply (patch_instance_status _ _) = Result Error Unit
Reply (list_users _ _) = Result Error (List GrowthbookUser)
Reply (list_organizations _ _) = Result Error (List GrowthbookOrganization)
Reply (list_features _ _) = Result Error (List GrowthbookFeature)
Reply (list_clients _ _) = Result Error (List GrowthbookClient)
Reply (list_instances_in _) = Result Error (List GrowthbookInstance)
Reply (list_instances_by _ _) = Result Error (List GrowthbookInstance)
Reply (record_event _ _ _ _) = Unit
Reply (mongo_connect _ _) = Result Error MongoClient
Reply (mongo_disconnect _) = Result Error Unit
Reply (mongo_find_one _ _) = Result Error Bytes
Reply (mongo_insert_one _ _) = Result Error ℕ
Reply (mongo_update_one _ _ _) = Result Error ℕ
Reply (mongo_delete_one _ _) = Result Error ℕ
Reply (mongo_delete_many _ _) = Result Error ℕ
Reply (decode_user _) = Result Error User
Reply (decode_organization _) = Result Error Organization
Reply (decode_feature _) = Result Error Feature
Reply (decode_sdk_connection _) = Result Error SdkConnection
Reply (marshal _) = Result Error Bytes
Reply now = Time
Reply (rand_read _) = Result Error Bytes
