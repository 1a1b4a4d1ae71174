-- ===== src/Updates/Connections.antt =====
-- `UpdateSDKConnection`.
use k8sgrowthbook_controller.Prelude.{◌≡◌, refl, some, false, Bytes, GoString, str, [], ◌∷◌}
use k8sgrowthbook_controller.Prelude.{◌==◌, text_eq, if◌then◌else◌}
use k8sgrowthbook_controller.Api.Meta.{Time}
use k8sgrowthbook_controller.Documents.SdkConnection.{SdkConnection}
use k8sgrowthbook_controller.Effects.{
  Prog, Error, ret, call, ok, err, Database, Document, Collection, Filter,
}
use k8sgrowthbook_controller.Effects.{sdk_document, ◌>>=◌, ◌>>◌, now, marshal}
use k8sgrowthbook_controller.Effects.{attempt, from_result, done}
use k8sgrowthbook_controller.Effects.Monitors.{Monitor, Obeys}
use k8sgrowthbook_controller.Storage.{
  find_one, insert_one, update_one, delete_many, by_id, set_document,
}
use k8sgrowthbook_controller.Growthbook.SdkConnection.{
  sdk_connections, sdk_payloads, update_sdk_connection,
}
use k8sgrowthbook_controller.Growthbook.SdkConnection.{overlay, clear_payload_cache, generate_key}
use k8sgrowthbook_controller.Updates.Upserts.{Watched, upserting, nothing_yet, Obeys-if}

-- The written connection has what the client specifies, but for the flag to include the names of
-- experiments: that one stays, as do the document's keys, creation date and revision.
pub record IsOverConnection (s existing v : SdkConnection) : Type 0 where
  pub id : v.id ≡ s.id
  pub key : v.key ≡ s.key
  pub languages : v.languages ≡ s.languages
  pub name : v.name ≡ s.name
  pub environment : v.environment ≡ s.environment
  pub encrypt_payload : v.encrypt_payload ≡ s.encrypt_payload
  pub organization : v.organization ≡ s.organization
  pub project : v.project ≡ s.project
  pub include_visual_experiments : v.include_visual_experiments ≡ s.include_visual_experiments
  pub include_draft_experiments : v.include_draft_experiments ≡ s.include_draft_experiments
  pub include_experiment_names : v.include_experiment_names ≡ existing.include_experiment_names
  pub encryption_key : v.encryption_key ≡ existing.encryption_key
  pub proxy : v.proxy ≡ existing.proxy
  pub date_created : v.date_created ≡ existing.date_created
  pub revision : v.revision ≡ existing.revision

abbrev pub OverConnection : SdkConnection → Document → Document → Type 0
OverConnection s (sdk_document existing) (sdk_document v) = IsOverConnection s existing v
OverConnection s _ _ = ⊥

-- A new connection is the one given, with two keys of its own, created and updated at one time.
abbrev pub FreshConnection : SdkConnection → Document → Type 0
FreshConnection s d =
    (t : Time) × (encryption_key : GoString) × (signing_key : GoString) × (d
      ≡ sdk_document (record s {
        date_created = t;
        date_updated = t;
        encryption_key = encryption_key;
        proxy = record { signing_key = signing_key };
      }))

abbrev stamped : SdkConnection → SdkConnection → Time → SdkConnection
stamped existing s t = record (overlay existing s) { date_updated = t }

pub overlay-IsOverConnection :
    (existing s : SdkConnection) → IsOverConnection s existing (overlay existing s)
unfolding overlay
overlay-IsOverConnection existing s = record {
  id = refl;
  key = refl;
  languages = refl;
  name = refl;
  environment = refl;
  encrypt_payload = refl;
  organization = refl;
  project = refl;
  include_visual_experiments = refl;
  include_draft_experiments = refl;
  include_experiment_names = refl;
  encryption_key = refl;
  proxy = refl;
  date_created = refl;
  revision = refl;
}

pub stamped-IsOverConnection :
    (existing s : SdkConnection) (t : Time) → IsOverConnection s existing (stamped existing s t)
unfolding overlay
stamped-IsOverConnection existing s t =
    let h = overlay-IsOverConnection existing s in
    record {
      id = h.id;
      key = h.key;
      languages = h.languages;
      name = h.name;
      environment = h.environment;
      encrypt_payload = h.encrypt_payload;
      organization = h.organization;
      project = h.project;
      include_visual_experiments = h.include_visual_experiments;
      include_draft_experiments = h.include_draft_experiments;
      include_experiment_names = h.include_experiment_names;
      encryption_key = h.encryption_key;
      proxy = h.proxy;
      date_created = h.date_created;
      revision = h.revision;
    }

-- The cached payloads of the connection's environment and organization.
abbrev Payloads : SdkConnection → Database → Collection → Filter → Type 0
Payloads s db c f =
    (c ≡ sdk_payloads db)
    × (f ≡ (str "environment", s.environment) ∷ (str "organization", s.organization) ∷ [])

-- No confirmed write is left without the deletion of the payloads.
abbrev pub Cleared : Watched → Type 0
Cleared s = s.stale ≡ false

abbrev pub connection_writes : SdkConnection → Database → Monitor Watched
connection_writes s db =
    upserting (sdk_connections db) s.id (FreshConnection s) (OverConnection s) (Payloads s db)

abbrev at_outcome : SdkConnection → SdkConnection → Bytes → Watched
at_outcome s existing after = record {
  found = some (sdk_document existing);
  marshalled = some (sdk_document (overlay existing s), after);
  written = false;
  stale = false;
}

-- The rest of an update that changes something.
abbrev stamping : SdkConnection → SdkConnection → Database → Prog Error Unit
stamping s existing db = call now λ t.
    call (marshal (sdk_document (stamped existing s t))) from_result >>= λ stamped_bson.
    update_one (sdk_connections db) (by_id s.id) (set_document stamped_bson)
    >> clear_payload_cache s db

stamping_writes :
    (s existing : SdkConnection) (db : Database) (after : Bytes)
    → Obeys (connection_writes s db) Cleared (at_outcome s existing after) (stamping s existing db)
unfolding update_one delete_many clear_payload_cache ◌>>=◌ from_result done
stamping_writes s existing db after = (
  tt,
  λ t. (
    tt,
    elim [
      | err e ↦ refl
      | ok b ↦ (
        (refl, refl, refl, (refl, stamped-IsOverConnection existing s t)),
        elim [ err e ↦ refl | ok n ↦ ((refl, (refl, refl)), elim [ err e ↦ refl | ok n ↦ refl ]) ],
      )
    ],
  ),
)

finish :
    (s existing : SdkConnection) (db : Database) (before after : Bytes)
    → Obeys
        (connection_writes s db)
        Cleared
        (at_outcome s existing after)
        (if before == after then ret tt else stamping s existing db)
finish s existing db before after =
    Obeys-if (connection_writes s db) Cleared _ (before == after) (ret tt) (stamping s existing db)
      refl (stamping_writes s existing db after)

-- Whatever the database, the clock and the random source reply, `UpdateSDKConnection` writes one
-- connection at most. After a write that is confirmed it deletes the cached payloads of the
-- connection's environment and organization, once, and otherwise deletes nothing. It inserts only where no
-- connection was decoded: the one given, with two keys and the time. Otherwise it sets, on the
-- document with the connection's ID, the bytes of a connection that has all that is given but the
-- keys, the dates, the revision and the flag to include the names of experiments, and that has
-- those, but for the date of the update, from the connection decoded.
pub update_sdk_connection_writes :
    (s : SdkConnection) (db : Database)
    → Obeys (connection_writes s db) Cleared nothing_yet (update_sdk_connection s db)
unfolding update_sdk_connection generate_key find_one insert_one delete_many ◌>>=◌ attempt
    from_result done
update_sdk_connection_writes s db = (
  tt,
  elim [
    | err e ↦ (
      tt,
      λ t. (
        tt,
        elim [
          | err e ↦ refl
          | ok a ↦ (
            tt,
            elim [
              | err e ↦ refl
              | ok b ↦ (
                (refl, refl, refl, (t, _, _, refl)),
                elim [
                  | err e ↦ refl
                  | ok n ↦ ((refl, (refl, refl)), elim [ err e ↦ refl | ok n ↦ refl ])
                ],
              )
            ],
          )
        ],
      ),
    )
    | ok found ↦ (
      tt,
      elim [
        | err e ↦ refl
        | ok existing ↦ (
          tt,
          elim [
            | err e ↦ refl
            | ok before ↦ (tt, elim [ err e ↦ refl | ok after ↦ finish s existing db before after ])
          ],
        )
      ],
    )
  ],
)
