-- ===== src/Refinement/FeatureShelf.antt =====
-- What `UpdateFeature` relies on of a MongoDB collection, of BSON and of the clock. BSON does not say
-- in which order the entries of a Go map are written, and leaves out the empty slices that are tagged
-- `omitempty` (internal/growthbook/feature.go), so features have an interface of their own.
use mathlib.Core.Option
use k8sgrowthbook_controller.Prelude.{◌≡◌, refl, sym, ◌∙◌, Option, none, some, [], map}
use k8sgrowthbook_controller.Prelude.{GoString, Bytes, Slice, text_eq}
use k8sgrowthbook_controller.Prelude.Dict.{lookup}
use k8sgrowthbook_controller.Documents.Feature.{Feature, FeatureRule, EnvironmentSetting}
use k8sgrowthbook_controller.Documents.Feature.{SavedGroupTargeting, NamespaceValue}
use k8sgrowthbook_controller.Effects.{Error, ok, err, Collection, feature_document, marshal}
use k8sgrowthbook_controller.Effects.{mongo_find_one, mongo_insert_one, mongo_update_one}
use k8sgrowthbook_controller.Effects.{now, decode_feature}
use k8sgrowthbook_controller.Effects.Runs.{Handler}
use k8sgrowthbook_controller.Storage.{by_id, set_document}
use k8sgrowthbook_controller.Growthbook.Feature.{entries}
use k8sgrowthbook_controller.Refinement.Shelf.{Puts, IsErasable}

-- What is read back of a slice with the tag.
abbrev trimmed : {A : Type 0} → Slice A → Slice A
trimmed (some []) = none
trimmed s = s

abbrev trimmed_group : SavedGroupTargeting → SavedGroupTargeting
trimmed_group g = record g { ids = trimmed g.ids }

abbrev trimmed_namespace : NamespaceValue → NamespaceValue
trimmed_namespace n = record n { range = trimmed n.range }

abbrev trimmed_rule : FeatureRule → FeatureRule
trimmed_rule r = record r {
  schedule_rules = trimmed r.schedule_rules;
  saved_groups = Option.map (map trimmed_group) (trimmed r.saved_groups);
  prerequisites = trimmed r.prerequisites;
  namespace = Option.map trimmed_namespace r.namespace;
  values = trimmed r.values;
  variations = trimmed r.variations;
}

abbrev trimmed_setting : EnvironmentSetting → EnvironmentSetting
trimmed_setting s = record s { rules = Option.map (map trimmed_rule) s.rules }

abbrev setting_of : GoString → Feature → Option EnvironmentSetting
setting_of environment f =
    Option.map trimmed_setting (lookup environment (entries f.environment_settings))

abbrev besides_settings : Feature → Feature
besides_settings f = record f { environment_settings = none }

-- The features are equal but for the order of the environments, and but for slices that are nil in
-- one and empty in the other where the field has the tag.
abbrev pub Alike : Feature → Feature → Type 0
Alike a b =
    (besides_settings a ≡ besides_settings b)
    × ((environment : GoString) → setting_of environment a ≡ setting_of environment b)

pub Alike-refl : (a : Feature) → Alike a a
Alike-refl a = (refl, λ environment. refl)

pub Alike-sym : (a b : Feature) → Alike a b → Alike b a
Alike-sym a b (p, q) = (sym p, λ environment. sym (q environment))

pub Alike-trans : (a b c : Feature) → Alike a b → Alike b c → Alike a c
Alike-trans a b c (p, q) (r, s) = (p ∙ r, λ environment. q environment ∙ s environment)

-- `stored` is what the documents of the collection are decoded to in a state, and `read` what bytes
-- are. A feature is marshalled to some bytes, which may differ from one time to the next, and which
-- are read as a feature like it. `InsertOne` of a feature whose ID is free adds a document like it,
-- `UpdateOne` with `$set` of all fields puts what the bytes are read as in the place of the document
-- with the ID, and other documents stay. Neither the clock nor the marshalling changes a document.
pub record IsFeatureShelf {S : Type 0} (h : Handler S) (col : Collection) (no_documents : Error)
    (read : Bytes → Option Feature) (stored : GoString → S → Option Feature) : Type 0 where
  pub misses :
      (id : GoString) (s : S)
      → stored id s ≡ none
      → h (mongo_find_one col (by_id id)) s ≡ (err no_documents, s)
  pub finds :
      (id : GoString) (e : Feature) (s : S)
      → stored id s ≡ some e
      → (b : Bytes) × (h (mongo_find_one col (by_id id)) s ≡ (ok b, s)) × (read b ≡ some e)
  pub decodes :
      (b : Bytes) (a : Feature) (s : S) → read b ≡ some a → h (decode_feature b) s ≡ (ok a, s)
  pub marshals :
      (a : Feature) (s : S)
      → (b : Bytes) × (v : Feature) × ((h (marshal (feature_document a)) s).0 ≡ ok b)
        × (read b ≡ some v)
        × Alike a v
  pub marshalled :
      (id : GoString) (a : Feature) (s : S)
      → stored id (h (marshal (feature_document a)) s).1 ≡ stored id s
  pub inserts :
      (a : Feature) (s : S)
      → stored a.id s ≡ none
      → ((h (mongo_insert_one col (feature_document a)) s).0 ≡ ok 1)
        × ((v : Feature) × Alike a v
            × Puts stored a.id v s (h (mongo_insert_one col (feature_document a)) s).1)
  pub updates :
      (id : GoString) (b : Bytes) (v e : Feature) (s : S)
      → read b ≡ some v
      → v.id ≡ id
      → stored id s ≡ some e
      → ((h (mongo_update_one col (by_id id) (set_document b)) s).0 ≡ ok 1)
        × Puts stored id v s (h (mongo_update_one col (by_id id) (set_document b)) s).1
  pub ticks : (id : GoString) (s : S) → stored id (h now s).1 ≡ stored id s
  pub erasable : IsErasable h col stored
