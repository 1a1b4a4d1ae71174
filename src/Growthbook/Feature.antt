-- ===== src/Growthbook/Feature.antt =====
-- internal/growthbook/feature.go: the database operations here, the two pure parts in the children.
mod Convert
mod Merge
unfoldable pub use Convert.{ParseFloat, convert_rule, convert_rules, convert_environment}
unfoldable pub use Convert.{convert_environments, from_v1beta1}
unfoldable pub use Merge.*
use k8sgrowthbook_controller.Prelude.{str, Bytes, ◌==◌, text_eq, if◌then◌else◌}
use k8sgrowthbook_controller.Documents.Feature.{Feature}
use k8sgrowthbook_controller.Effects.{Error, Result, ok, err, Prog, ret, call, ◌>>=◌, attempt}
use k8sgrowthbook_controller.Effects.{from_result, Database, Collection, Filter}
use k8sgrowthbook_controller.Effects.{feature_document, decode_feature, marshal, now}
use k8sgrowthbook_controller.Storage.{collection, find_one, insert_one, update_one, delete_one}
use k8sgrowthbook_controller.Storage.{by_id, set_document}

-- `db.Collection("features")`
unfoldable pub features : Database → Collection
unfolding collection
features db = collection db (str "features")

unfoldable pub delete_feature : Feature → Database → Prog Error Unit
unfolding features
delete_feature feature db = delete_one (features db) (by_id feature.id)

-- `UpdateFeature` after `FindOne`. Each `marshal` is a call with a reply of its own: the bytes of two
-- equal features may differ, as the order of a Go map does.
unfoldable pub update_found : Collection → Filter → Feature → Result Error Bytes → Prog Error Unit
update_found col filter feature (err _) = call now λ time.
    insert_one col (feature_document (record feature { date_created = time; date_updated = time }))
update_found col filter feature (ok found) = do
  existing ← call (decode_feature found) from_result
  existing_bson ← call (marshal (feature_document existing)) from_result
  update_bson ← call (marshal (feature_document (overlay existing feature))) from_result
  if existing_bson == update_bson
      then ret tt
      else call now λ time. do
        stamped_bson ←
            call
              (marshal
                (feature_document (record (overlay existing feature) { date_updated = time })))
              from_result
        update_one col filter (set_document stamped_bson)

unfoldable pub update_feature : Feature → Database → Prog Error Unit
unfolding features update_found
update_feature feature db =
    attempt (find_one (features db) (by_id feature.id))
      (update_found (features db) (by_id feature.id) feature)
