-- ===== src/Storage.antt =====
-- internal/storage/storage.go and its MongoDB implementation, internal/storage/mongodb/mongodb.go:
-- each method hands its arguments to the driver, and drops what the reply says beside the error.
use k8sgrowthbook_controller.Prelude.{GoString, Bytes, str, [], ◌∷◌}
use k8sgrowthbook_controller.Effects.{Error, Prog, call, from_result, done}
use k8sgrowthbook_controller.Effects.{Database, Collection, Filter, Update, Document, MongoClient}
use k8sgrowthbook_controller.Effects.{mongo_find_one, mongo_insert_one, mongo_update_one}
use k8sgrowthbook_controller.Effects.{mongo_delete_one, mongo_delete_many, mongo_disconnect}

-- `New`, and `Database.Collection`
unfoldable pub new : MongoClient → GoString → Database
new client name = record { client = client; name = name }

unfoldable pub collection : Database → GoString → Collection
collection db coll_name = record { database = db; name = coll_name }

-- The document found, still to be decoded.
unfoldable pub find_one : Collection → Filter → Prog Error Bytes
find_one c filter = call (mongo_find_one c filter) from_result

unfoldable pub delete_one : Collection → Filter → Prog Error Unit
delete_one c filter = call (mongo_delete_one c filter) done

unfoldable pub insert_one : Collection → Document → Prog Error Unit
insert_one c doc = call (mongo_insert_one c doc) done

unfoldable pub update_one : Collection → Filter → Update → Prog Error Unit
update_one c filter doc = call (mongo_update_one c filter doc) done

unfoldable pub delete_many : Collection → Filter → Prog Error Unit
delete_many c filter = call (mongo_delete_many c filter) done

-- `Disconnector.Disconnect`
unfoldable pub disconnect : MongoClient → Prog Error Unit
disconnect client = call (mongo_disconnect client) done

-- `bson.M{"id": id}`
unfoldable pub by_id : GoString → Filter
by_id id = (str "id", id) ∷ []

-- `bson.D{{Key: "$set", Value: bson.Raw(doc)}}`
unfoldable pub set_document : Bytes → Update
set_document doc = (str "$set", doc) ∷ []
