-- ===== src/Tests/Apart.antt =====
-- That the world in memory is one of four shelves that are apart, in a cluster.
use k8sgrowthbook_controller.Prelude.{Bool, true, false, not, ◌≡◌, refl, ap, [], ◌∷◌, GoString}
use k8sgrowthbook_controller.Prelude.{str, text_eq, ◌==◌}
use k8sgrowthbook_controller.Prelude.Dict.{Dict, lookup}
use k8sgrowthbook_controller.Api.Meta.{Object}
use k8sgrowthbook_controller.Api.User.{GrowthbookUser}
use k8sgrowthbook_controller.Prelude.{List}
use k8sgrowthbook_controller.Effects.{Error, Result, Secret}
use k8sgrowthbook_controller.Documents.User.{User}
use k8sgrowthbook_controller.Documents.Organization.{Organization}
use k8sgrowthbook_controller.Documents.SdkConnection.{SdkConnection}
use k8sgrowthbook_controller.Effects
use k8sgrowthbook_controller.Effects.{Error, Result, ok, err, Database, Call, Secret, from_result}
use k8sgrowthbook_controller.Effects.Runs.{Handler, Outcome}
use k8sgrowthbook_controller.Growthbook.User.{users}
use k8sgrowthbook_controller.Growthbook.Organization.{organizations}
use k8sgrowthbook_controller.Growthbook.Feature.{features}
use k8sgrowthbook_controller.Growthbook.SdkConnection.{sdk_connections}
use k8sgrowthbook_controller.Storage.{collection}
use k8sgrowthbook_controller.Refinement.Shelf.{IsShelf}
use k8sgrowthbook_controller.Refinement.Users.{user_kind}
use k8sgrowthbook_controller.Refinement.Organizations.{organization_kind}
use k8sgrowthbook_controller.Refinement.FeatureShelf.{IsFeatureShelf}
use k8sgrowthbook_controller.Refinement.Connections.{connection_kind}
use k8sgrowthbook_controller.Refinement.Cluster.{IsCluster}
use k8sgrowthbook_controller.Refinement.Frames.{Spares}
use k8sgrowthbook_controller.Refinement.World.{IsWorld}
use k8sgrowthbook_controller.Tests.Encodings.{user_codec, organization_codec}
use k8sgrowthbook_controller.Tests.Encodings.{connection_codec}
use k8sgrowthbook_controller.Tests.Memory.{refused, encode_by}
use k8sgrowthbook_controller.Tests.Memory.{user_memory-IsShelf}
use k8sgrowthbook_controller.Tests.Memory.{
  organization_memory-IsShelf, feature_memory-IsFeatureShelf, read_back,
}
use k8sgrowthbook_controller.Tests.Memory.{connection_memory-IsShelf}
use k8sgrowthbook_controller.Tests.Fixtures.{externals, gone}
use k8sgrowthbook_controller.Tests.World.{State, world_with, contents, changed}

unwritten :
    {A : Type 0} (b : Bool) (f : Dict A → Dict A) (d : Dict A) (id : GoString)
    → not b ≡ true
    → lookup id (changed b f d) ≡ lookup id d
unwritten true f d id e = cc
unwritten false f d id e = refl

module _ (reply : Result Error Secret) (us : List GrowthbookUser) where
  abbrev world : Handler State
  world = world_with reply us

  user-IsShelf :
      (db : Database)
      → IsShelf world (user_kind (encode_by user_codec)) (users db) refused contents.user_of
  unfolding from_result users collection str text_eq
  user-IsShelf db =
      let base = user_memory-IsShelf (users db) in
      record {
        finds = λ id s. ap (λ p. (p.0, s)) (base.finds id s.users);
        decodes = λ u s. ap (λ (p : Outcome _ User × Dict User). (p.0, s)) (base.decodes u s.users);
        marshals = λ u s. ap (λ p. (p.0, s)) (base.marshals u s.users);
        inserts = λ u s e. base.inserts u s.users e;
        inserted = λ id u s e. base.inserted id u s.users e;
        updates = λ u e s q. base.updates u e s.users q;
        updated = λ id u e s q. base.updated id u e s.users q;
        deletes = λ id s. base.deletes id s.users;
        deleted = λ id j s. base.deleted id j s.users;
        ticks = λ id s. refl;
        draws = λ n s. base.draws n s.users;
        drawn = λ n id s. refl;
      }

  organization-IsShelf :
      (db : Database)
      → IsShelf world
          (organization_kind (encode_by organization_codec))
          (organizations db)
          refused
          contents.organization_of
  unfolding from_result organizations collection str text_eq
  organization-IsShelf db =
      let base = organization_memory-IsShelf (organizations db) in
      record {
        finds = λ id s. ap (λ p. (p.0, s)) (base.finds id s.organizations);
        decodes = λ a s.
            ap (λ (p : Outcome _ Organization × Dict Organization). (p.0, s))
              (base.decodes a s.organizations);
        marshals = λ a s. ap (λ p. (p.0, s)) (base.marshals a s.organizations);
        inserts = λ a s e. base.inserts a s.organizations e;
        inserted = λ id a s e. base.inserted id a s.organizations e;
        updates = λ a e s q. base.updates a e s.organizations q;
        updated = λ id a e s q. base.updated id a e s.organizations q;
        deletes = λ id s. base.deletes id s.organizations;
        deleted = λ id j s. base.deleted id j s.organizations;
        ticks = λ id s. refl;
        draws = λ n s. base.draws n s.organizations;
        drawn = λ n id s. refl;
      }

  feature-IsFeatureShelf :
      (db : Database) → IsFeatureShelf world (features db) refused read_back contents.feature_of
  unfolding features collection str text_eq
  feature-IsFeatureShelf db =
      let base = feature_memory-IsFeatureShelf (features db) in
      record {
        misses = λ id s q. ap (λ p. (p.0, s)) (base.misses id s.features q);
        finds = λ id e s q.
            let (b, found, reads) = base.finds id e s.features q in
            (b, ap (λ p. (p.0, s)) found, reads);
        decodes = λ b a s q. ap (λ p. (p.0, s)) (base.decodes b a s.features q);
        marshals = λ a s. base.marshals a s.features;
        marshalled = λ id a s. refl;
        inserts = λ a s q. base.inserts a s.features q;
        updates = λ id b v e s q own p. base.updates id b v e s.features q own p;
        ticks = λ id s. refl;
        erasable = record {
          deletes = λ id s. base.erasable.deletes id s.features;
          deleted = λ id j s. base.erasable.deleted id j s.features;
        };
      }

  connection-IsShelf :
      (db : Database)
      → IsShelf world
          (connection_kind (encode_by connection_codec))
          (sdk_connections db)
          refused
          contents.connection_of
  unfolding from_result sdk_connections collection str text_eq
  connection-IsShelf db =
      let base = connection_memory-IsShelf (sdk_connections db) in
      record {
        finds = λ id s. ap (λ p. (p.0, s)) (base.finds id s.connections);
        decodes = λ a s.
            ap (λ (p : Outcome _ SdkConnection × Dict SdkConnection). (p.0, s))
              (base.decodes a s.connections);
        marshals = λ a s. ap (λ p. (p.0, s)) (base.marshals a s.connections);
        inserts = λ a s e. base.inserts a s.connections e;
        inserted = λ id a s e. base.inserted id a s.connections e;
        updates = λ a e s q. base.updates a e s.connections q;
        updated = λ id a e s q. base.updated id a e s.connections q;
        deletes = λ id s. base.deletes id s.connections;
        deleted = λ id j s. base.deleted id j s.connections;
        ticks = λ id s. refl;
        draws = λ n s. base.draws n s.connections;
        drawn = λ n id s. refl;
      }

  users_apart :
      (c : Call) (id : GoString) (s : State)
      → Spares (str "users") c
      → contents.user_of id (world c s).1 ≡ contents.user_of id s
  users_apart (Effects.mongo_insert_one c d) id s e = unwritten (c.name == str "users") _ _ id e
  users_apart (Effects.mongo_update_one c f u) id s e = unwritten (c.name == str "users") _ _ id e
  users_apart (Effects.mongo_delete_one c f) id s e = unwritten (c.name == str "users") _ _ id e
  users_apart _ id s e = refl

  organizations_apart :
      (c : Call) (id : GoString) (s : State)
      → Spares (str "organizations") c
      → contents.organization_of id (world c s).1 ≡ contents.organization_of id s
  organizations_apart (Effects.mongo_insert_one c d) id s e =
      unwritten (c.name == str "organizations") _ _ id e
  organizations_apart (Effects.mongo_update_one c f u) id s e =
      unwritten (c.name == str "organizations") _ _ id e
  organizations_apart (Effects.mongo_delete_one c f) id s e =
      unwritten (c.name == str "organizations") _ _ id e
  organizations_apart _ id s e = refl

  features_apart :
      (c : Call) (id : GoString) (s : State)
      → Spares (str "features") c
      → contents.feature_of id (world c s).1 ≡ contents.feature_of id s
  features_apart (Effects.mongo_insert_one c d) id s e =
      unwritten (c.name == str "features") _ _ id e
  features_apart (Effects.mongo_update_one c f u) id s e =
      unwritten (c.name == str "features") _ _ id e
  features_apart (Effects.mongo_delete_one c f) id s e =
      unwritten (c.name == str "features") _ _ id e
  features_apart _ id s e = refl

  connections_apart :
      (c : Call) (id : GoString) (s : State)
      → Spares (str "sdkconnections") c
      → contents.connection_of id (world c s).1 ≡ contents.connection_of id s
  connections_apart (Effects.mongo_insert_one c d) id s e =
      unwritten (c.name == str "sdkconnections") _ _ id e
  connections_apart (Effects.mongo_update_one c f u) id s e =
      unwritten (c.name == str "sdkconnections") _ _ id e
  connections_apart (Effects.mongo_delete_one c f) id s e =
      unwritten (c.name == str "sdkconnections") _ _ id e
  connections_apart _ id s e = refl

  clustered : (obj : Object) → IsCluster world contents.user_of contents.finalizers obj
  clustered obj = record {
    latest = λ s. gone.object;
    gets = λ s. refl;
    patches = λ o s. refl;
    patched = λ o s. refl;
    keeps = λ o j s. refl;
  }

  pub world_with-IsWorld : (db : Database) → IsWorld externals db world contents
  world_with-IsWorld db = record {
    no_documents = refused;
    user_bson = encode_by user_codec;
    organization_bson = encode_by organization_codec;
    read_feature = read_back;
    connection_bson = encode_by connection_codec;
    user_shelf = user-IsShelf db;
    organization_shelf = organization-IsShelf db;
    feature_shelf = feature-IsFeatureShelf db;
    connection_shelf = connection-IsShelf db;
    users_apart = record { keeps = users_apart };
    organizations_apart = record { keeps = organizations_apart };
    features_apart = record { keeps = features_apart };
    connections_apart = record { keeps = connections_apart };
    payload_cache = record { clears = λ f s. (0, refl); cleared = λ f id s. refl };
    cluster = clustered;
    hashes = λ password salt. (7 ∷ 200 ∷ [], refl);
  }
