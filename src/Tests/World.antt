-- ===== src/Tests/World.antt =====
-- A world in memory: the four collections apart, beside a cluster of one instance.
use k8sgrowthbook_controller.Prelude.{Bool, true, false, not, List, [], ◌∷◌, GoString}
use k8sgrowthbook_controller.Prelude.{str, Bytes, none, text_eq, ◌==◌, if◌then◌else◌}
use k8sgrowthbook_controller.Prelude.Dict.{Dict, lookup, insert, retain}
use k8sgrowthbook_controller.Api.User.{GrowthbookUser}
use k8sgrowthbook_controller.Documents.User.{User}
use k8sgrowthbook_controller.Documents.Organization.{Organization}
use k8sgrowthbook_controller.Documents.Feature.{Feature}
use k8sgrowthbook_controller.Documents.SdkConnection.{SdkConnection}
use k8sgrowthbook_controller.Effects
use k8sgrowthbook_controller.Effects.{Error, Result, ok, err, Database, Call, Secret, from_result}
use k8sgrowthbook_controller.Effects.Runs.{Handler}
use k8sgrowthbook_controller.Refinement.World.{Contents}
use k8sgrowthbook_controller.Tests.Encodings.{user_codec, organization_codec, feature_codec}
use k8sgrowthbook_controller.Tests.Encodings.{connection_codec}
use k8sgrowthbook_controller.Tests.Memory.{refused, decode_by, id_in, operand, bson}
use k8sgrowthbook_controller.Tests.Memory.{put_in, reply_of, as_user, as_organization, as_feature}
use k8sgrowthbook_controller.Tests.Memory.{as_connection}
use k8sgrowthbook_controller.Tests.Fixtures.{main_instance, gone, ann_with_secret, acme_with_users}
use k8sgrowthbook_controller.Tests.Fixtures.{dark_mode, web}

-- The documents of each collection, and the finalizers that were patched last.
pub record State : Type 0 where
  pub users : Dict User
  pub organizations : Dict Organization
  pub features : Dict Feature
  pub connections : Dict SdkConnection
  pub patched : List GoString

abbrev pub changed : {A : Type 0} → Bool → (A → A) → A → A
changed true f a = f a
changed false f a = a

-- A write in the collection of that name.
abbrev pub write :
    GoString
    → (Dict User → Dict User)
    → (Dict Organization → Dict Organization)
    → (Dict Feature → Dict Feature)
    → (Dict SdkConnection → Dict SdkConnection)
    → State
    → State
write name u o f c s = record s {
  users = changed (name == str "users") u s.users;
  organizations = changed (name == str "organizations") o s.organizations;
  features = changed (name == str "features") f s.features;
  connections = changed (name == str "sdkconnections") c s.connections;
}

abbrev found : GoString → GoString → State → Result Error Bytes
found name id s =
    if name == str "users"
    then reply_of user_codec (lookup id s.users)
    else if name == str "organizations"
    then reply_of organization_codec (lookup id s.organizations)
    else if name == str "features"
    then reply_of feature_codec (lookup id s.features)
    else if name == str "sdkconnections"
    then reply_of connection_codec (lookup id s.connections)
    else err refused

-- What a user and a client need.
abbrev pub shared_secret : Secret
shared_secret = record {
  values = (str "password", str "s3cret") ∷ (str "token", str "sdk-abcd") ∷ [];
}

-- These users, and an organization with a feature and a client, whatever is asked for; this reply
-- for every secret.
abbrev pub world_with : Result Error Secret → List GrowthbookUser → Handler State
world_with reply us (Effects.mongo_find_one c f) s = (found c.name (id_in f) s, s)
world_with reply us (Effects.mongo_insert_one c d) s = (
  ok 1,
  write c.name (put_in (λ u. u.id) (as_user d)) (put_in (λ o. o.id) (as_organization d))
      (put_in (λ f. f.id) (as_feature d)) (put_in (λ k. k.id) (as_connection d)) s,
)
world_with reply us (Effects.mongo_update_one c f u) s =
    let id = id_in f in
    let b = operand u in
    (
      ok 1,
      write c.name (insert id (decode_by user_codec b)) (insert id (decode_by organization_codec b))
          (insert id (decode_by feature_codec b)) (insert id (decode_by connection_codec b)) s,
    )
world_with reply us (Effects.mongo_delete_one c f) s = (
  ok 1,
  write c.name (retain (λ k. not (k == id_in f))) (retain (λ k. not (k == id_in f)))
      (retain (λ k. not (k == id_in f))) (retain (λ k. not (k == id_in f))) s,
)
world_with reply us (Effects.mongo_delete_many _ _) s = (ok 0, s)
world_with reply us (Effects.mongo_connect _ _) s = (ok (record { handle = 1 }), s)
world_with reply us (Effects.mongo_disconnect _) s = (ok tt, s)
world_with reply us (Effects.decode_user b) s = (ok (decode_by user_codec b), s)
world_with reply us (Effects.decode_organization b) s = (ok (decode_by organization_codec b), s)
world_with reply us (Effects.decode_feature b) s = (ok (decode_by feature_codec b), s)
world_with reply us (Effects.decode_sdk_connection b) s = (ok (decode_by connection_codec b), s)
world_with reply us (Effects.marshal d) s = (ok (bson d), s)
world_with reply us Effects.now s = (7, s)
world_with reply us (Effects.rand_read n) s = (ok (171 ∷ []), s)
world_with reply us (Effects.get_instance _) s = (ok main_instance, s)
world_with reply us (Effects.patch_instance_status _ _) s = (ok tt, s)
world_with reply us (Effects.get_object _ _) s = (ok gone.object, s)
world_with reply us (Effects.patch_object o _) s =
    (ok tt, record s { patched = o.object_meta.finalizers })
world_with reply us (Effects.get_secret _) s = (reply, s)
world_with reply us (Effects.list_users _ _) s = (ok us, s)
world_with reply us (Effects.list_organizations _ _) s = (ok (acme_with_users ∷ []), s)
world_with reply us (Effects.list_features _ _) s = (ok (dark_mode none ∷ []), s)
world_with reply us (Effects.list_clients _ _) s = (ok (web ∷ []), s)
world_with reply us (Effects.list_instances_in _) s = (err refused, s)
world_with reply us (Effects.list_instances_by _ _) s = (err refused, s)
world_with reply us (Effects.record_event _ _ _ _) s = (tt, s)

-- Ann and a user that goes, with a secret.
abbrev pub world_memory : Handler State
world_memory = world_with (ok shared_secret) (ann_with_secret ∷ gone ∷ [])

abbrev pub contents : Contents State
contents = record {
  user_of = λ id s. lookup id s.users;
  organization_of = λ id s. lookup id s.organizations;
  feature_of = λ id s. lookup id s.features;
  connection_of = λ id s. lookup id s.connections;
  finalizers = λ key s. s.patched;
}
