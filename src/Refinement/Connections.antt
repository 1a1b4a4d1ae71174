-- ===== src/Refinement/Connections.antt =====
-- `UpdateSDKConnection` on a shelf of connections, beside a cache of payloads.
use mathlib.Core.Path.{subst}
use k8sgrowthbook_controller.Prelude.{
  ℕ, ◌≡◌, refl, sym, ap, ◌∙◌, arith, Option, none, some, GoString, Bytes, [], ◌∷◌, str,
}
use k8sgrowthbook_controller.Api.Meta.{Time}
use k8sgrowthbook_controller.Documents.SdkConnection.{SdkConnection}
use k8sgrowthbook_controller.Effects.{
  Error, Result, ok, ret, Database, Prog, call, sdk_document, now, marshal,
}
use k8sgrowthbook_controller.Effects.{decode_sdk_connection, from_result, ◌>>=◌, attempt}
use k8sgrowthbook_controller.Effects.{rand_read, mongo_delete_many, ◌>>◌, Filter}
use k8sgrowthbook_controller.Effects.Runs.{Handler, run, run-call, Outcome, returned}
use k8sgrowthbook_controller.Storage.{insert_one, update_one, delete_many, by_id, set_document}
use k8sgrowthbook_controller.Storage.{find_one}
use k8sgrowthbook_controller.Growthbook.SdkConnection.{sdk_connections, sdk_payloads, overlay}
use k8sgrowthbook_controller.Growthbook.SdkConnection.{update_sdk_connection, update_found}
use k8sgrowthbook_controller.Growthbook.SdkConnection.{clear_payload_cache, generate_key, key_text}
use k8sgrowthbook_controller.Updates.Connections.{
  IsOverConnection, overlay-IsOverConnection, stamped-IsOverConnection,
}
use k8sgrowthbook_controller.Refinement.Shelf.{Kind, IsShelf, Lands}
use k8sgrowthbook_controller.Refinement.Upsert.{Plan, upsert, Lands-upsert}
use k8sgrowthbook_controller.Refinement.Landing.{Lands-insert_one}
use k8sgrowthbook_controller.Refinement.Upsert.{upsert-again, Steadily, Lands-Steadily}
use k8sgrowthbook_controller.Refinement.Landing.{
  Lands-update_one, Lands-from, run_known, run-done, Lands-then, Lands-weaken,
}

abbrev pub connection_kind : (SdkConnection → Bytes) → Kind SdkConnection
connection_kind encode = record {
  document = sdk_document;
  decode = λ b. call (decode_sdk_connection b) from_result;
  id = λ s. s.id;
  encode = encode;
}

-- The cache of payloads can be cleared, which leaves the connections alone.
pub record IsPayloadCache {S : Type 0} (db : Database) (h : Handler S)
    (stored : GoString → S → Option SdkConnection) : Type 0 where
  pub clears :
      (f : Filter) (s : S) → (n : ℕ) × ((h (mongo_delete_many (sdk_payloads db) f) s).0 ≡ ok n)
  pub cleared :
      (f : Filter) (id : GoString) (s : S)
      → stored id (h (mongo_delete_many (sdk_payloads db) f) s).1 ≡ stored id s

abbrev created : SdkConnection → Time → GoString → GoString → SdkConnection
created c t encryption_key signing_key = record c {
  date_created = t;
  date_updated = t;
  encryption_key = encryption_key;
  proxy = record { signing_key = signing_key };
}

abbrev stamped : SdkConnection → SdkConnection → Time → SdkConnection
stamped c e t = record (overlay e c) { date_updated = t }

abbrev connection_plan : SdkConnection → Database → Plan SdkConnection
connection_plan c db = record {
  id = c.id;
  fresh = call now λ t. generate_key [] 32 >>= λ encryption_key.
      generate_key [] 32 >>= λ signing_key.
      insert_one (sdk_connections db) (sdk_document (created c t encryption_key signing_key))
      >> clear_payload_cache c db;
  over = λ e. overlay e c;
  commit = λ e b. call now λ t.
      call (marshal (sdk_document (stamped c e t))) from_result >>= λ stamped_bson.
      update_one (sdk_connections db) (by_id c.id) (set_document stamped_bson)
      >> clear_payload_cache c db;
}

-- The filter by which cached payloads are deleted.
abbrev payloads_of : SdkConnection → Filter
payloads_of c = (str "environment", c.environment) ∷ (str "organization", c.organization) ∷ []

-- What may become of a connection.
abbrev pub AfterConnection : SdkConnection → Option SdkConnection → SdkConnection → Type 0
AfterConnection c none v =
    (t : Time) × (encryption_key : GoString) × (signing_key : GoString) × (v
      ≡ created c t encryption_key signing_key)
AfterConnection c (some e) v = IsOverConnection c e v

created_again :
    (c v : SdkConnection) (t : Time) (a b : GoString) → v ≡ created c t a b → overlay v c ≡ v
unfolding overlay
created_again c v t a b p = rw p refl

over_again :
    (c v : SdkConnection) (e : Option SdkConnection) → AfterConnection c e v → overlay v c ≡ v
unfolding overlay
over_again c v none (t, a, b, p) = created_again c v t a b p
over_again c v (some e) p = ground arith

-- It may become of a connection, which needs no change any more and is as it was if it needed none.
abbrev pub SteadyConnection : SdkConnection → Option SdkConnection → SdkConnection → Type 0
SteadyConnection c = Steadily (λ e. overlay e c) (AfterConnection c)

module _ {S : Type 0} (db : Database) (h : Handler S) (no_documents : Error)
    (encode : SdkConnection → Bytes) (stored : GoString → S → Option SdkConnection)
    (laws : IsShelf h (connection_kind encode) (sdk_connections db) no_documents stored)
    (cache : IsPayloadCache db h stored) (c : SdkConnection) where
  abbrev planned : S → Outcome Error Unit × S
  planned s = run h (upsert (connection_kind encode) (connection_plan c db) (sdk_connections db)) s

  scheme : (s : S) → run h (update_sdk_connection c db) s ≡ planned s
  unfolding update_sdk_connection update_found upsert ◌>>=◌ attempt find_one from_result
  scheme s = refl

  -- The key that the random source gives in a state.
  abbrev drawn_key : S → GoString
  drawn_key s = key_text [] (laws.draws 32 s).0

  abbrev after_draw : S → S
  after_draw s = (h (rand_read 32) s).1

  run-generate_key :
      {B : Type 0} (f : GoString → Prog Error B) (s : S)
      → run h (generate_key [] 32 >>= f) s ≡ run h (f (drawn_key s)) (after_draw s)
  unfolding generate_key ◌>>=◌ from_result
  run-generate_key f s =
      run_known h (rand_read 32) (λ r. (from_result r >>= λ b. ret (key_text [] b)) >>= f) s
        (ok (laws.draws 32 s).0) (laws.draws 32 s).1

  clear_lem :
      (t : S)
      → ((run h (clear_payload_cache c db) t).0 ≡ returned tt)
        × ((j : GoString) → stored j (run h (clear_payload_cache c db) t).1 ≡ stored j t)
  unfolding clear_payload_cache delete_many
  clear_lem t =
      let (n, e) = cache.clears (payloads_of c) t in
      let done_e = run-done h _ n (h (mongo_delete_many (sdk_payloads db) (payloads_of c)) t).1 e in
      (
        ap (λ (o : Outcome Error Unit × S). o.0) done_e,
        λ j.
            ap (λ (o : Outcome Error Unit × S). stored j o.1) done_e
            ∙ cache.cleared (payloads_of c) j t,
      )

  fresh-Lands :
      (s : S)
      → stored c.id s ≡ none
      → Lands stored c.id (AfterConnection c none) s (run h (connection_plan c db).fresh s)
  fresh-Lands s e =
      let s1 = (h now s).1 in
      let s2 = after_draw s1 in
      let s3 = after_draw s2 in
      let v = created c (h now s).0 (drawn_key s1) (drawn_key s2) in
      let keeps : (j : GoString) → stored j s3 ≡ stored j s =
        λ j. laws.drawn 32 j s2 ∙ laws.drawn 32 j s1 ∙ laws.ticks j s in
      subst (Lands stored c.id (AfterConnection c none) s)
        (sym (run-generate_key _ s1 ∙ run-generate_key _ s2))
        (Lands-from c.id (AfterConnection c none) s s3 _ keeps (
          Lands-then h stored c.id (AfterConnection c none) s3
            (insert_one (sdk_connections db) (sdk_document v)) (clear_payload_cache c db) clear_lem
            (Lands-insert_one laws (AfterConnection c none) s3 v (keeps c.id ∙ e)
              ((h now s).0, drawn_key s1, drawn_key s2, refl))))

  -- What is left to do with the BSON to write.
  abbrev writing : Result Error Bytes → Prog Error Unit
  writing r = from_result r >>= λ stamped_bson.
      update_one (sdk_connections db) (by_id c.id) (set_document stamped_bson)
      >> clear_payload_cache c db

  commit-Lands :
      (e : SdkConnection) (s : S) (b : Bytes)
      → stored c.id s ≡ some e
      → Lands stored c.id
          (AfterConnection c (some e))
          s
          (run h ((connection_plan c db).commit e b) s)
  unfolding overlay ◌>>=◌ from_result
  commit-Lands e s b q =
      let s1 = (h now s).1 in
      let v = stamped c e (h now s).0 in
      subst (Lands stored c.id (AfterConnection c (some e)) s)
        (sym (
          run-call h (marshal (sdk_document v)) writing s1 s1 (ok (encode v)) (laws.marshals v s1)))
        (Lands-from c.id (AfterConnection c (some e)) s s1 _ (λ j. laws.ticks j s)
          (Lands-then h stored c.id (AfterConnection c (some e)) s1
            (update_one (sdk_connections db) (by_id c.id) (set_document (encode v)))
            (clear_payload_cache c db) clear_lem
            (Lands-update_one laws (AfterConnection c (some e)) s1 v e (laws.ticks c.id s ∙ q)
              (stamped-IsOverConnection e c (h now s).0))))

  landing : (s : S) → Lands stored c.id (AfterConnection c (stored c.id s)) s (planned s)
  landing =
      Lands-upsert laws (connection_plan c db) (AfterConnection c) fresh-Lands
        (λ e. overlay-IsOverConnection e c) (λ e t q. commit-Lands e t (encode (overlay e c)) q)

  -- On such a shelf a second `UpdateSDKConnection` of the same connection succeeds and changes
  -- nothing at all, the cache of payloads included.
  pub update_sdk_connection_settles :
      (s : S)
      → let t = (run h (update_sdk_connection c db) s).1 in
        run h (update_sdk_connection c db) t ≡ (returned tt, t)
  update_sdk_connection_settles s =
      scheme _
      ∙ rw (scheme s) (
          upsert-again laws (connection_plan c db) (AfterConnection c (stored c.id s)) s (planned s)
            (landing s) (λ v e. over_again c v (stored c.id s) e))

  -- It puts in a connection steadily.
  pub update_sdk_connection-SteadyConnection :
      (s : S)
      → Lands stored c.id
          (SteadyConnection c (stored c.id s))
          s
          (run h (update_sdk_connection c db) s)
  update_sdk_connection-SteadyConnection s = rw (scheme s) (
      Lands-Steadily laws (connection_plan c db) (AfterConnection c) s (
        Lands-weaken c.id _ _ s (planned s) (λ v p. (p, over_again c v (stored c.id s) p))
          (landing s)))
