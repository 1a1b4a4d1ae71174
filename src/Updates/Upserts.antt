-- ===== src/Updates/Upserts.antt =====
-- The calls of an update, as a monitor sees them.
use k8sgrowthbook_controller.Prelude.{Bool, true, false, ◌≡◌, Option, none, some, Bytes, GoString}
use k8sgrowthbook_controller.Prelude.{if◌then◌else◌}
use k8sgrowthbook_controller.Effects.{
  Error, Result, ok, err, Prog, Call, Reply, Collection, Document, Filter,
}
use k8sgrowthbook_controller.Effects.{user_document, organization_document, feature_document}
use k8sgrowthbook_controller.Effects.{sdk_document, marshal, decode_user, decode_organization}
use k8sgrowthbook_controller.Effects.{decode_feature, decode_sdk_connection, mongo_insert_one}
use k8sgrowthbook_controller.Effects.{mongo_update_one, mongo_delete_one, mongo_delete_many, Update}
use k8sgrowthbook_controller.Effects.Monitors.{Monitor, Obeys}
use k8sgrowthbook_controller.Storage.{by_id, set_document}

-- The document that was decoded, the last one marshalled with its bytes, whether a write of a
-- document was made, and whether one was confirmed after which no cached payload was deleted yet.
pub record Watched : Type 0 where
  pub found : Option Document
  pub marshalled : Option (Document × Bytes)
  pub written : Bool
  pub stale : Bool

abbrev pub nothing_yet : Watched
nothing_yet = record { found = none; marshalled = none; written = false; stale = false }

abbrev saw : Watched → Option Document → Watched
saw s d = record s { found = d }

abbrev as_document : {A : Type 0} → (A → Document) → Result Error A → Option Document
as_document f (ok a) = some (f a)
as_document f (err e) = none

abbrev with_bytes : Document → Result Error Bytes → Option (Document × Bytes)
with_bytes d (ok b) = some (d, b)
with_bytes d (err e) = none

abbrev confirmed : {A : Type 0} → Result Error A → Bool
confirmed (ok a) = true
confirmed (err e) = false

abbrev watch : Watched → (c : Call) → Reply c → Watched
watch s (decode_user _) r = saw s (as_document user_document r)
watch s (decode_organization _) r = saw s (as_document organization_document r)
watch s (decode_feature _) r = saw s (as_document feature_document r)
watch s (decode_sdk_connection _) r = saw s (as_document sdk_document r)
watch s (marshal d) r = record s { marshalled = with_bytes d r }
watch s (mongo_insert_one _ _) r = record s { written = true; stale = confirmed r }
watch s (mongo_update_one _ _ _) r = record s { written = true; stale = confirmed r }
watch s (mongo_delete_many _ _) r = record s { stale = false }
watch s _ r = s

module _ (col : Collection) (id : GoString) (Fresh : Document → Type 0)
    (Over : Document → Document → Type 0) (Clears : Collection → Filter → Type 0) where
  -- The update sets the bytes of the last document marshalled, which goes over the one decoded.
  abbrev IsUpdate : Option Document → Option (Document × Bytes) → Update → Type 0
  IsUpdate (some e) (some (d, b)) u = (u ≡ set_document b) × Over e d
  IsUpdate _ _ u = ⊥

  -- An insert is of a fresh document, where none was decoded. Either write is the first, and goes
  -- to the collection; the update looks its document up by the ID. Nothing is deleted by ID,
  -- and documents are deleted by a filter only as `Clears` says and once after a confirmed write.
  abbrev AllowedWrite : Watched → Call → Type 0
  AllowedWrite s (mongo_insert_one c d) =
      (c ≡ col) × (s.written ≡ false) × (s.found ≡ none) × Fresh d
  AllowedWrite s (mongo_update_one c f u) =
      (c ≡ col) × (s.written ≡ false) × (f ≡ by_id id) × IsUpdate s.found s.marshalled u
  AllowedWrite s (mongo_delete_one c f) = ⊥
  AllowedWrite s (mongo_delete_many c f) = (s.stale ≡ true) × Clears c f
  AllowedWrite s _ = Unit

  -- The monitor of an insert or update of one document.
  abbrev pub upserting : Monitor Watched
  upserting = record { step = watch; allowed = AllowedWrite }

-- Nothing is deleted by a filter.
abbrev pub NoClears : Collection → Filter → Type 0
NoClears c f = ⊥

-- The ends of a program are not looked at.
abbrev pub AnyEnd : Watched → Type 0
AnyEnd s = Unit

pub Obeys-if :
    {S E A : Type 0} (M : Monitor S) (P : S → Type 0) (s : S) (b : Bool) (m n : Prog E A)
    → Obeys M P s m
    → Obeys M P s n
    → Obeys M P s (if b then m else n)
Obeys-if M P s true m n hm hn = hm
Obeys-if M P s false m n hm hn = hn
