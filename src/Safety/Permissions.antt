-- ===== src/Safety/Permissions.antt =====
-- Which writes the operations of internal/growthbook make.
use k8sgrowthbook_controller.Prelude.{Bool, true, false, ◌≡◌, GoString, Bytes, str}
use k8sgrowthbook_controller.Documents.User.{User}
use k8sgrowthbook_controller.Documents.Organization.{Organization}
use k8sgrowthbook_controller.Documents.Feature.{Feature}
use k8sgrowthbook_controller.Documents.SdkConnection.{SdkConnection}
use k8sgrowthbook_controller.Effects.{Error, Result, ok, err, Call, Filter, Database}
use k8sgrowthbook_controller.Effects.{mongo_insert_one, mongo_update_one, mongo_delete_one}
use k8sgrowthbook_controller.Effects.{mongo_delete_many, mongo_connect, mongo_disconnect}
use k8sgrowthbook_controller.Effects.Traces.{AllCalls, trace_rules}
use k8sgrowthbook_controller.Storage.{find_one, insert_one, update_one, delete_one, delete_many}
use k8sgrowthbook_controller.Growthbook
use k8sgrowthbook_controller.Growthbook.User.{ScryptKey}

-- Of the collections by their names.
abbrev pub everywhere : GoString → Bool
everywhere name = true

abbrev pub nowhere : GoString → Bool
nowhere name = false

-- Documents are put in or changed in the collections of `upsert`, and deleted by ID in those of
-- `delete`. Many are deleted at once in the cache of payloads alone, if `upsert` has it. The database is connected to and left if `connect`. Every other call
-- is free.
abbrev pub Permitted : (GoString → Bool) → (GoString → Bool) → Bool → Call → Type 0
Permitted upsert delete connect (mongo_insert_one c _) = upsert c.name ≡ true
Permitted upsert delete connect (mongo_update_one c _ _) = upsert c.name ≡ true
Permitted upsert delete connect (mongo_delete_many c _) =
    (upsert c.name ≡ true) × (c.name ≡ str "sdkpayloads")
Permitted upsert delete connect (mongo_delete_one c _) = delete c.name ≡ true
Permitted upsert delete connect (mongo_connect _ _) = connect ≡ true
Permitted upsert delete connect (mongo_disconnect _) = connect ≡ true
Permitted upsert delete connect _ = Unit

module _ (upsert delete : GoString → Bool) (connect : Bool) where
  abbrev May : Call → Type 0
  May = Permitted upsert delete connect

  pub set_password-Permitted :
      (k : ScryptKey) (u : User) (db : Database) (password : GoString)
      → AllCalls May (Growthbook.User.set_password k u db password)
  unfolding Growthbook.User.set_password find_one
  set_password-Permitted k u db password =
      search (trace_rules, decode_existing-Permitted, choose_salt-Permitted) depth 12
    where
      decode_existing-Permitted :
          (r : Result Error Bytes) → AllCalls May (Growthbook.User.decode_existing r)
      decode_existing-Permitted (ok found) = search trace_rules
      decode_existing-Permitted (err e) = search trace_rules

      choose_salt-Permitted :
          (r : Result Error Bytes) (u : User) → AllCalls May (Growthbook.User.choose_salt r u)
      choose_salt-Permitted r u = search trace_rules depth 8

  module _ (may : upsert (str "users") ≡ true) where
    user_found :
        (db : Database) (filter : Filter) (u : User) (r : Result Error Bytes)
        → AllCalls May (Growthbook.User.update_found (Growthbook.User.users db) filter u r)
    unfolding Growthbook.User.update_found Growthbook.User.users insert_one update_one
    user_found db filter u (err e) = search trace_rules depth 12
    user_found db filter u (ok found) = search trace_rules depth 12

    pub update_user-Permitted :
        (u : User) (db : Database) → AllCalls May (Growthbook.User.update_user u db)
    unfolding Growthbook.User.update_user Growthbook.User.users find_one
    update_user-Permitted u db = search (trace_rules, user_found) depth 12

  module _ (may : upsert (str "organizations") ≡ true) where
    organization_found :
        (db : Database) (filter : Filter) (o : Organization) (r : Result Error Bytes)
        → AllCalls May (
            Growthbook.Organization.update_found
              (Growthbook.Organization.organizations db)
              filter
              o
              r)
    unfolding Growthbook.Organization.update_found Growthbook.Organization.organizations insert_one
        update_one
    organization_found db filter o (err e) = search trace_rules depth 12
    organization_found db filter o (ok found) = search trace_rules depth 12

    pub update_organization-Permitted :
        (o : Organization) (db : Database)
        → AllCalls May (Growthbook.Organization.update_organization o db)
    unfolding Growthbook.Organization.update_organization Growthbook.Organization.organizations
        find_one
    update_organization-Permitted o db = search (trace_rules, organization_found) depth 12

  module _ (may : upsert (str "features") ≡ true) where
    feature_found :
        (db : Database) (filter : Filter) (f : Feature) (r : Result Error Bytes)
        → AllCalls May (Growthbook.Feature.update_found (Growthbook.Feature.features db) filter f r)
    unfolding Growthbook.Feature.update_found Growthbook.Feature.features insert_one update_one
    feature_found db filter f (err e) = search trace_rules depth 12
    feature_found db filter f (ok found) = search trace_rules depth 16

    pub update_feature-Permitted :
        (f : Feature) (db : Database) → AllCalls May (Growthbook.Feature.update_feature f db)
    unfolding Growthbook.Feature.update_feature Growthbook.Feature.features find_one
    update_feature-Permitted f db = search (trace_rules, feature_found) depth 12

  module _ (may : upsert (str "sdkconnections") ≡ true)
      (may_clear : upsert (str "sdkpayloads") ≡ true) where
    sdk_found :
        (db : Database) (filter : Filter) (s : SdkConnection) (r : Result Error Bytes)
        → AllCalls May (
            Growthbook.SdkConnection.update_found db
              (Growthbook.SdkConnection.sdk_connections db)
              filter
              s
              r)
    unfolding Growthbook.SdkConnection.update_found Growthbook.SdkConnection.sdk_connections
        Growthbook.SdkConnection.sdk_payloads Growthbook.SdkConnection.generate_key insert_one
        update_one delete_many
    sdk_found db filter s (err e) = search trace_rules depth 16
    sdk_found db filter s (ok found) = search trace_rules depth 16

    pub update_sdk_connection-Permitted :
        (s : SdkConnection) (db : Database)
        → AllCalls May (Growthbook.SdkConnection.update_sdk_connection s db)
    unfolding Growthbook.SdkConnection.update_sdk_connection
        Growthbook.SdkConnection.sdk_connections find_one
    update_sdk_connection-Permitted s db = search (trace_rules, sdk_found) depth 12

  module _ (may : delete (str "users") ≡ true) where
    pub delete_user-Permitted :
        (u : User) (db : Database) → AllCalls May (Growthbook.User.delete_user u db)
    unfolding Growthbook.User.delete_user Growthbook.User.users delete_one
    delete_user-Permitted u db = search trace_rules

  module _ (may : delete (str "organizations") ≡ true) where
    pub delete_organization-Permitted :
        (o : Organization) (db : Database)
        → AllCalls May (Growthbook.Organization.delete_organization o db)
    unfolding Growthbook.Organization.delete_organization Growthbook.Organization.organizations
        delete_one
    delete_organization-Permitted o db = search trace_rules

  module _ (may : delete (str "features") ≡ true) where
    pub delete_feature-Permitted :
        (f : Feature) (db : Database) → AllCalls May (Growthbook.Feature.delete_feature f db)
    unfolding Growthbook.Feature.delete_feature Growthbook.Feature.features delete_one
    delete_feature-Permitted f db = search trace_rules

  module _ (may : delete (str "sdkconnections") ≡ true) where
    pub delete_sdk_connection-Permitted :
        (s : SdkConnection) (db : Database)
        → AllCalls May (Growthbook.SdkConnection.delete_sdk_connection s db)
    unfolding Growthbook.SdkConnection.delete_sdk_connection
        Growthbook.SdkConnection.sdk_connections delete_one
    delete_sdk_connection-Permitted s db = search trace_rules
