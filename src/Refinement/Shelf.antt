-- ===== src/Refinement/Shelf.antt =====
-- What the updates rely on of a MongoDB collection, of BSON, of the clock and of the random source,
-- as an interface: a shelf keeps documents of one kind by their ID.
use k8sgrowthbook_controller.Prelude.{ℕ, ◌≡◌, Option, none, some, GoString, Bytes, text_eq, ◌==◌}
use k8sgrowthbook_controller.Prelude.{if◌then◌else◌}
use k8sgrowthbook_controller.Effects.{Error, Result, ok, err, Prog, Collection, Document, marshal}
use k8sgrowthbook_controller.Effects.{mongo_find_one, mongo_insert_one, mongo_update_one}
use k8sgrowthbook_controller.Effects.{mongo_delete_one, now, rand_read}
use k8sgrowthbook_controller.Effects.Runs.{Handler, run, Outcome, returned}
use k8sgrowthbook_controller.Storage.{by_id, set_document}

-- A kind of documents: how the program names and decodes one, the ID that it is kept by, and its
-- BSON.
pub record Kind (A : Type 0) : Type 0 where
  pub document : A → Document
  pub decode : Bytes → Prog Error A
  pub id : A → GoString
  pub encode : A → Bytes

module _ {A : Type 0} where
  -- The reply to `FindOne`.
  abbrev pub answer : Error → Kind A → Option A → Result Error Bytes
  answer no_documents k none = err no_documents
  answer no_documents k (some a) = ok (k.encode a)

  -- `stored` is what the collection holds in a state. A document is decoded as it was encoded.
  -- `InsertOne` of a document whose ID is free adds it, `UpdateOne` with `$set` of all fields puts
  -- it in the place of the one with the ID, `DeleteOne` takes the one with the ID away, and other
  -- documents stay. The clock and the random source answer, and leave the documents alone.
  pub record IsShelf {S : Type 0} (h : Handler S) (k : Kind A) (col : Collection)
      (no_documents : Error) (stored : GoString → S → Option A) : Type 0 where
    pub finds :
        (id : GoString) (s : S)
        → h (mongo_find_one col (by_id id)) s ≡ (answer no_documents k (stored id s), s)
    pub decodes : (a : A) (s : S) → run h (k.decode (k.encode a)) s ≡ (returned a, s)
    pub marshals : (a : A) (s : S) → h (marshal (k.document a)) s ≡ (ok (k.encode a), s)
    pub inserts :
        (a : A) (s : S)
        → stored (k.id a) s ≡ none
        → (h (mongo_insert_one col (k.document a)) s).0 ≡ ok 1
    pub inserted :
        (id : GoString) (a : A) (s : S)
        → stored (k.id a) s ≡ none
        → stored id (h (mongo_insert_one col (k.document a)) s).1
          ≡ (if id == k.id a then some a else stored id s)
    pub updates :
        (a e : A) (s : S)
        → stored (k.id a) s ≡ some e
        → (h (mongo_update_one col (by_id (k.id a)) (set_document (k.encode a))) s).0 ≡ ok 1
    pub updated :
        (id : GoString) (a e : A) (s : S)
        → stored (k.id a) s ≡ some e
        → stored id (h (mongo_update_one col (by_id (k.id a)) (set_document (k.encode a))) s).1
          ≡ (if id == k.id a then some a else stored id s)
    pub deletes :
        (id : GoString) (s : S) → (n : ℕ) × ((h (mongo_delete_one col (by_id id)) s).0 ≡ ok n)
    pub deleted :
        (id j : GoString) (s : S)
        → stored j (h (mongo_delete_one col (by_id id)) s).1
          ≡ (if j == id then none else stored j s)
    pub ticks : (id : GoString) (s : S) → stored id (h now s).1 ≡ stored id s
    pub draws : (n : ℕ) (s : S) → (b : Bytes) × ((h (rand_read n) s).0 ≡ ok b)
    pub drawn : (n : ℕ) (id : GoString) (s : S) → stored id (h (rand_read n) s).1 ≡ stored id s

  -- What the deletions rely on alone.
  pub record IsErasable {S : Type 0} (h : Handler S) (col : Collection)
      (stored : GoString → S → Option A) : Type 0 where
    pub deletes :
        (id : GoString) (s : S) → (n : ℕ) × ((h (mongo_delete_one col (by_id id)) s).0 ≡ ok n)
    pub deleted :
        (id j : GoString) (s : S)
        → stored j (h (mongo_delete_one col (by_id id)) s).1
          ≡ (if j == id then none else stored j s)

  pub IsShelf-IsErasable :
      {S : Type 0} {h : Handler S} {k : Kind A} {col : Collection} {no_documents : Error}
      {stored : GoString → S → Option A}
      → IsShelf h k col no_documents stored
      → IsErasable h col stored
  IsShelf-IsErasable laws = record { deletes = laws.deletes; deleted = laws.deleted }

  module _ {S : Type 0} (stored : GoString → S → Option A) where
    -- From `s` to `t` the document `a` is put in under the ID, and the others stay.
    abbrev pub Puts : GoString → A → S → S → Type 0
    Puts id a s t = (j : GoString) → stored j t ≡ (if j == id then some a else stored j s)

    -- A program ends well, and a document of which `P` holds is put in.
    pub record Lands (id : GoString) (P : A → Type 0) (s : S) (o : Outcome Error Unit × S)
        : Type 0 where
      pub ends : o.0 ≡ returned tt
      pub outcome : A
      pub holds : P outcome
      pub puts : Puts id outcome s o.1
