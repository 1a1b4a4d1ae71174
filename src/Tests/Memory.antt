-- ===== src/Tests/Memory.antt =====
-- Stores in memory, each for one kind of documents.
use k8sgrowthbook_controller.Prelude.{◌≡◌, refl, sym, ap, ◌∙◌, [], ◌∷◌, GoString, Bytes, str}
use k8sgrowthbook_controller.Prelude.{Option, none, some, not, arith, text_eq, ◌==◌}
use mathlib.Core.Option.{some-injective}
use k8sgrowthbook_controller.Prelude.Dict.{Dict, lookup, insert, retain, lookup-insert}
use k8sgrowthbook_controller.Prelude.Dict.{lookup-retain}
use k8sgrowthbook_controller.Documents.User.{User}
use k8sgrowthbook_controller.Documents.Organization.{Organization}
use k8sgrowthbook_controller.Documents.Feature.{Feature}
use k8sgrowthbook_controller.Documents.SdkConnection.{SdkConnection}
use k8sgrowthbook_controller.Effects.{Error, errors_new, Result, ok, err, Filter, Update, Document}
use k8sgrowthbook_controller.Effects.{user_document, organization_document, feature_document}
use k8sgrowthbook_controller.Effects.{sdk_document, mongo_find_one, mongo_insert_one, marshal}
use k8sgrowthbook_controller.Effects.{mongo_update_one, mongo_delete_one, mongo_delete_many}
use k8sgrowthbook_controller.Effects.{decode_user, decode_organization, decode_feature}
use k8sgrowthbook_controller.Effects.{decode_sdk_connection, record_event, now, rand_read}
use k8sgrowthbook_controller.Effects.{Collection, from_result}
use k8sgrowthbook_controller.Effects.{get_secret, Secret}
use k8sgrowthbook_controller.Effects.Runs.{Handler, run, Outcome, returned}
use k8sgrowthbook_controller.Storage.{by_id, set_document}
use k8sgrowthbook_controller.Refinement.Shelf.{Kind, IsShelf, answer}
use k8sgrowthbook_controller.Refinement.Users.{user_kind}
use k8sgrowthbook_controller.Refinement.Organizations.{organization_kind}
use k8sgrowthbook_controller.Refinement.FeatureShelf.{IsFeatureShelf, Alike-refl}
use k8sgrowthbook_controller.Refinement.Connections.{connection_kind, IsPayloadCache}
use k8sgrowthbook_controller.Tests.Codecs.{Codec}
use k8sgrowthbook_controller.Tests.Encodings.{user_codec, organization_codec, feature_codec}
use k8sgrowthbook_controller.Tests.Encodings.{connection_codec}
use k8sgrowthbook_controller.Tests.Fixtures.{db}

abbrev pub refused : Error
refused = errors_new (str "refused")

abbrev pub id_in : Filter → GoString
id_in [] = []
id_in ((_, id) ∷ _) = id

abbrev pub operand : Update → Bytes
operand [] = []
operand ((_, b) ∷ _) = b

module _ {A : Type 0} where
  abbrev pub encode_by : Codec A → A → Bytes
  encode_by c a = c.put a []

  abbrev pub decode_by : Codec A → Bytes → A
  decode_by c b = (c.get b).0

  pub decode-encode : (c : Codec A) (a : A) → decode_by c (encode_by c a) ≡ a
  decode-encode c a = ap (λ p. p.0) (c.law a [])

  abbrev pub put_in : (A → GoString) → Option A → Dict A → Dict A
  put_in id none s = s
  put_in id (some a) s = insert (id a) a s

  abbrev pub reply_of : Codec A → Option A → Result Error Bytes
  reply_of c none = err refused
  reply_of c (some a) = ok (encode_by c a)

abbrev pub bson : Document → Bytes
bson (user_document u) = encode_by user_codec u
bson (organization_document o) = encode_by organization_codec o
bson (feature_document f) = encode_by feature_codec f
bson (sdk_document c) = encode_by connection_codec c

-- The secret under every name.
abbrev pub password_secret : Secret
password_secret = record { values = (str "password", str "s3cret") ∷ [] }

-- Whatever the collection, the documents of the kind that `pick` takes.
abbrev pub memory :
    {A : Type 0} → Codec A → (A → GoString) → (Document → Option A) → Handler (Dict A)
memory c id pick (mongo_find_one _ f) s = (reply_of c (lookup (id_in f) s), s)
memory c id pick (mongo_insert_one _ d) s = (ok 1, put_in id (pick d) s)
memory c id pick (mongo_update_one _ f u) s = (ok 1, insert (id_in f) (decode_by c (operand u)) s)
memory c id pick (mongo_delete_one _ f) s = (ok 1, retain (λ k. not (k == id_in f)) s)
memory c id pick (mongo_delete_many _ _) s = (ok 0, s)
memory c id pick (decode_user b) s = (ok (decode_by user_codec b), s)
memory c id pick (decode_organization b) s = (ok (decode_by organization_codec b), s)
memory c id pick (decode_feature b) s = (ok (decode_by feature_codec b), s)
memory c id pick (decode_sdk_connection b) s = (ok (decode_by connection_codec b), s)
memory c id pick (marshal d) s = (ok (bson d), s)
memory c id pick (rand_read n) s = (ok (171 ∷ []), s)
memory c id pick (get_secret _) s = (ok password_secret, s)
memory c id pick now s = (7, s)
memory c id pick (record_event _ _ _ _) s = (tt, s)
memory c id pick _ s = (err refused, s)

module _ {A : Type 0} (c : Codec A) (k : Kind A) (pick : Document → Option A) (col : Collection)
    (encoded : (a : A) → k.encode a ≡ encode_by c a)
    (picked : (a : A) → pick (k.document a) ≡ some a)
    (decoded : (a : A) (s : Dict A)
      → run (memory c k.id pick) (k.decode (k.encode a)) s ≡ (returned a, s))
    (marshalled : (a : A) → bson (k.document a) ≡ k.encode a) where
  abbrev world : Handler (Dict A)
  world = memory c k.id pick

  reply_of-answer : (o : Option A) → reply_of c o ≡ answer refused k o
  reply_of-answer none = refl
  reply_of-answer (some a) = ap ok (sym (encoded a))

  found :
      (id : GoString) (s : Dict A)
      → world (mongo_find_one col (by_id id)) s ≡ (answer refused k (lookup id s), s)
  unfolding by_id
  found id s = ap (λ r. (r, s)) (reply_of-answer (lookup id s))

  pub memory-IsShelf : IsShelf world k col refused lookup
  unfolding by_id set_document
  memory-IsShelf = record {
    finds = found;
    decodes = decoded;
    marshals = λ a s. ap (λ b. (ok b, s)) (marshalled a);
    inserts = λ a s e. refl;
    inserted = λ id a s e.
        ap (λ o. lookup id (put_in k.id o s)) (picked a) ∙ lookup-insert id (k.id a) a s;
    updates = λ a e s p. refl;
    updated = λ id a e s p.
        ap (λ b. lookup id (insert (k.id a) (decode_by c b) s)) (encoded a)
        ∙ ap (λ v. lookup id (insert (k.id a) v s)) (decode-encode c a)
        ∙ lookup-insert id (k.id a) a s;
    deletes = λ id s. (1, refl);
    deleted = λ id j s. rw lookup-retain (ground arith);
    ticks = λ id s. refl;
    draws = λ n s. (171 ∷ [], refl);
    drawn = λ n id s. refl;
  }

-- A store of each kind.
abbrev pub as_user : Document → Option User
as_user (user_document u) = some u
as_user _ = none

abbrev pub as_organization : Document → Option Organization
as_organization (organization_document o) = some o
as_organization _ = none

abbrev pub as_feature : Document → Option Feature
as_feature (feature_document f) = some f
as_feature _ = none

abbrev pub as_connection : Document → Option SdkConnection
as_connection (sdk_document c) = some c
as_connection _ = none

abbrev pub user_memory : Handler (Dict User)
user_memory = memory user_codec (λ u. u.id) as_user

abbrev pub organization_memory : Handler (Dict Organization)
organization_memory = memory organization_codec (λ o. o.id) as_organization

abbrev pub feature_memory : Handler (Dict Feature)
feature_memory = memory feature_codec (λ f. f.id) as_feature

abbrev pub connection_memory : Handler (Dict SdkConnection)
connection_memory = memory connection_codec (λ c. c.id) as_connection

module _ {A : Type 0} (c : Codec A) where
  decodes_back :
      (a : A) (s : Dict A)
      → (◌≡◌ {A = Outcome Error A × Dict A}
          (returned (decode_by c (encode_by c a)), s)
          (returned a, s))
  decodes_back a s = ap (λ v. (returned v, s)) (decode-encode c a)

pub user_memory-IsShelf :
    (col : Collection) → IsShelf user_memory (user_kind (encode_by user_codec)) col refused lookup
unfolding from_result
user_memory-IsShelf col =
    memory-IsShelf user_codec (user_kind (encode_by user_codec)) as_user col (λ u. refl) (λ u. refl)
      (decodes_back user_codec) (λ u. refl)

pub organization_memory-IsShelf :
    (col : Collection)
    → IsShelf organization_memory
        (organization_kind (encode_by organization_codec))
        col
        refused
        lookup
unfolding from_result
organization_memory-IsShelf col =
    memory-IsShelf organization_codec (organization_kind (encode_by organization_codec))
      as_organization col (λ o. refl) (λ o. refl) (decodes_back organization_codec) (λ o. refl)

-- What the codec of features makes of bytes.
abbrev pub read_back : Bytes → Option Feature
read_back b = some (decode_by feature_codec b)

pub feature_memory-IsFeatureShelf :
    (col : Collection) → IsFeatureShelf feature_memory col refused read_back lookup
unfolding by_id set_document
feature_memory-IsFeatureShelf col = record {
  misses = λ id s q. ap (λ o. (reply_of feature_codec o, s)) q;
  finds = λ id e s q. (
    encode_by feature_codec e,
    ap (λ o. (reply_of feature_codec o, s)) q,
    ap some (decode-encode feature_codec e),
  );
  decodes = λ b a s q. ap (λ v. (ok v, s)) (some-injective _ _ q);
  marshals = λ a s.
      (encode_by feature_codec a, a, refl, ap some (decode-encode feature_codec a), Alike-refl a);
  marshalled = λ id a s. refl;
  inserts = λ a s q. (refl, (a, Alike-refl a, λ id. lookup-insert id a.id a s));
  updates = λ id b v e s q own p. (
    refl,
    λ j. ap (λ w. lookup j (insert id w s)) (some-injective _ _ q) ∙ lookup-insert j id v s,
  );
  ticks = λ id s. refl;
  erasable = record {
    deletes = λ id s. (1, refl);
    deleted = λ id j s. rw lookup-retain (ground arith);
  };
}

pub connection_memory-IsShelf :
    (col : Collection)
    → IsShelf connection_memory (connection_kind (encode_by connection_codec)) col refused lookup
unfolding from_result
connection_memory-IsShelf col =
    memory-IsShelf connection_codec (connection_kind (encode_by connection_codec)) as_connection col
      (λ c. refl) (λ c. refl) (decodes_back connection_codec) (λ c. refl)

pub connection_memory-IsPayloadCache : IsPayloadCache db connection_memory lookup
connection_memory-IsPayloadCache = record { clears = λ f s. (0, refl); cleared = λ f id s. refl }
