-- ===== src/Refinement/World.antt =====
-- MongoDB, Kubernetes and the libraries together: four shelves that are apart, in a cluster. That of
-- the features does not fix the bytes that a feature is marshalled to.
use k8sgrowthbook_controller.Prelude.{◌≡◌, GoString, Bytes, List, Option, str}
use k8sgrowthbook_controller.Api.Meta.{Object, ObjectKey}
use k8sgrowthbook_controller.Documents.User.{User}
use k8sgrowthbook_controller.Documents.Organization.{Organization}
use k8sgrowthbook_controller.Documents.Feature.{Feature}
use k8sgrowthbook_controller.Documents.SdkConnection.{SdkConnection}
use k8sgrowthbook_controller.Effects.{Error, ok, Database, patch_object}
use k8sgrowthbook_controller.Effects.Runs.{Handler}
use k8sgrowthbook_controller.Growthbook.User.{users}
use k8sgrowthbook_controller.Growthbook.Organization.{organizations}
use k8sgrowthbook_controller.Growthbook.Feature.{features}
use k8sgrowthbook_controller.Growthbook.SdkConnection.{sdk_connections}
use k8sgrowthbook_controller.Controller.Externals.{Externals}
use k8sgrowthbook_controller.Refinement.Shelf.{IsShelf}
use k8sgrowthbook_controller.Refinement.Users.{user_kind}
use k8sgrowthbook_controller.Refinement.Organizations.{organization_kind}
use k8sgrowthbook_controller.Refinement.FeatureShelf.{IsFeatureShelf}
use k8sgrowthbook_controller.Refinement.Connections.{connection_kind, IsPayloadCache}
use k8sgrowthbook_controller.Refinement.Cluster.{IsCluster}
use k8sgrowthbook_controller.Refinement.Frames.{IsApart}

-- What a state of the world holds: the documents of each kind by their ID, and the finalizers of
-- the cluster's objects.
pub record Contents (S : Type 0) : Type 0 where
  pub user_of : GoString → S → Option User
  pub organization_of : GoString → S → Option Organization
  pub feature_of : GoString → S → Option Feature
  pub connection_of : GoString → S → Option SdkConnection
  pub finalizers : ObjectKey → S → List GoString

-- Each kind of documents has its shelf, and a write in one collection leaves the others alone. The
-- cache of payloads can be cleared, the cluster takes patches of each object, and the library hashes
-- every password under every salt.
pub record IsWorld {S : Type 0} (x : Externals) (db : Database) (h : Handler S) (c : Contents S)
    : Type 0 where
  pub no_documents : Error
  pub user_bson : User → Bytes
  pub organization_bson : Organization → Bytes
  pub read_feature : Bytes → Option Feature
  pub connection_bson : SdkConnection → Bytes
  pub user_shelf : IsShelf h (user_kind user_bson) (users db) no_documents c.user_of
  pub organization_shelf :
      IsShelf h
        (organization_kind organization_bson)
        (organizations db)
        no_documents
        c.organization_of
  pub feature_shelf : IsFeatureShelf h (features db) no_documents read_feature c.feature_of
  pub connection_shelf :
      IsShelf h (connection_kind connection_bson) (sdk_connections db) no_documents c.connection_of
  pub users_apart : IsApart h (str "users") c.user_of
  pub organizations_apart : IsApart h (str "organizations") c.organization_of
  pub features_apart : IsApart h (str "features") c.feature_of
  pub connections_apart : IsApart h (str "sdkconnections") c.connection_of
  pub payload_cache : IsPayloadCache db h c.connection_of
  pub cluster : (obj : Object) → IsCluster h c.user_of c.finalizers obj
  pub hashes :
      (password salt : GoString) → (p : Bytes) × (x.scrypt_key password salt 16384 8 1 64 ≡ ok p)

-- A patch writes no document, so the cluster is one for every kind of documents.
pub IsCluster-for :
    {A B S : Type 0} {h : Handler S} {stored : GoString → S → Option A}
    {other : GoString → S → Option B} {name : GoString} {finalizers : ObjectKey → S → List GoString}
    → IsApart h name other
    → ((obj : Object) → IsCluster h stored finalizers obj)
    → (obj : Object) → IsCluster h other finalizers obj
IsCluster-for apart cluster obj =
    let k = cluster obj in
    record {
      latest = k.latest;
      gets = k.gets;
      patches = k.patches;
      patched = k.patched;
      keeps = λ o j s. apart.keeps (patch_object o (k.latest s)) j s tt;
    }
