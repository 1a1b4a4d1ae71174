-- ===== src/Updates/Features.antt =====
-- `UpdateFeature`.
use k8sgrowthbook_controller.Prelude.{◌≡◌, refl, some, false, Bytes}
use k8sgrowthbook_controller.Prelude.{◌==◌, text_eq, if◌then◌else◌}
use k8sgrowthbook_controller.Prelude.Dict.{lookup, NodupKeys}
use k8sgrowthbook_controller.Api.Meta.{Time}
use k8sgrowthbook_controller.Prelude.{GoString}
use k8sgrowthbook_controller.Documents.Feature.{Feature}
use k8sgrowthbook_controller.Effects.{Prog, Error, ret, call, ok, err, Database, Document}
use k8sgrowthbook_controller.Effects.{feature_document, ◌>>=◌, now, marshal}
use k8sgrowthbook_controller.Effects.{attempt, from_result, done}
use k8sgrowthbook_controller.Effects.Monitors.{Monitor, Obeys}
use k8sgrowthbook_controller.Storage.{find_one, insert_one, update_one, by_id, set_document}
use k8sgrowthbook_controller.Growthbook.Feature.{features, update_feature, overlay, entries}
use k8sgrowthbook_controller.Updates.Upserts.{
  Watched, upserting, NoClears, nothing_yet, AnyEnd, Obeys-if,
}
use k8sgrowthbook_controller.Merging.Environments.{merged_over, lookup-merge_environments}

-- The written feature has what the specification says, its environments merged one by one, and the
-- document's owner, organization, creation date, archive flag and revision.
pub record IsOverFeature (f existing v : Feature) : Type 0 where
  pub id : v.id ≡ f.id
  pub description : v.description ≡ f.description
  pub default_value : v.default_value ≡ f.default_value
  pub value_type : v.value_type ≡ f.value_type
  pub tags : v.tags ≡ f.tags
  pub environments : v.environments ≡ f.environments
  pub settings :
      (k : GoString)
      → lookup k (entries v.environment_settings)
        ≡ merged_over
            (lookup k (entries existing.environment_settings))
            (lookup k (entries f.environment_settings))
  pub owner : v.owner ≡ existing.owner
  pub organization : v.organization ≡ existing.organization
  pub date_created : v.date_created ≡ existing.date_created
  pub archived : v.archived ≡ existing.archived
  pub revision : v.revision ≡ existing.revision

abbrev pub OverFeature : Feature → Document → Document → Type 0
OverFeature f (feature_document existing) (feature_document v) = IsOverFeature f existing v
OverFeature f _ _ = ⊥

-- A new feature is the one given, created and updated at one time.
abbrev pub FreshFeature : Feature → Document → Type 0
FreshFeature f d =
    (t : Time) × (d ≡ feature_document (record f { date_created = t; date_updated = t }))

abbrev pub stamped : Feature → Feature → Time → Feature
stamped existing f t = record (overlay existing f) { date_updated = t }

pub overlay-IsOverFeature :
    (existing f : Feature)
    → NodupKeys (entries f.environment_settings)
    → IsOverFeature f existing (overlay existing f)
unfolding overlay
overlay-IsOverFeature existing f h = record {
  id = refl;
  description = refl;
  default_value = refl;
  value_type = refl;
  tags = refl;
  environments = refl;
  settings = λ k.
      lookup-merge_environments k (entries existing.environment_settings)
        (entries f.environment_settings) h;
  owner = refl;
  organization = refl;
  date_created = refl;
  archived = refl;
  revision = refl;
}

pub stamped-IsOverFeature :
    (existing f : Feature) (t : Time)
    → NodupKeys (entries f.environment_settings)
    → IsOverFeature f existing (stamped existing f t)
unfolding overlay
stamped-IsOverFeature existing f t h =
    let o = overlay-IsOverFeature existing f h in
    record {
      id = o.id;
      description = o.description;
      default_value = o.default_value;
      value_type = o.value_type;
      tags = o.tags;
      environments = o.environments;
      settings = o.settings;
      owner = o.owner;
      organization = o.organization;
      date_created = o.date_created;
      archived = o.archived;
      revision = o.revision;
    }

abbrev pub feature_writes : Feature → Database → Monitor Watched
feature_writes f db = upserting (features db) f.id (FreshFeature f) (OverFeature f) NoClears

abbrev at_outcome : Feature → Feature → Bytes → Watched
at_outcome f existing after = record {
  found = some (feature_document existing);
  marshalled = some (feature_document (overlay existing f), after);
  written = false;
  stale = false;
}

-- The rest of an update that changes something.
abbrev stamping : Feature → Feature → Database → Prog Error Unit
stamping f existing db = call now λ t.
    call (marshal (feature_document (stamped existing f t))) from_result >>= λ stamped_bson.
    update_one (features db) (by_id f.id) (set_document stamped_bson)

stamping_writes :
    (f existing : Feature) (db : Database) (after : Bytes)
    → NodupKeys (entries f.environment_settings)
    → Obeys (feature_writes f db) AnyEnd (at_outcome f existing after) (stamping f existing db)
unfolding update_one ◌>>=◌ from_result done
stamping_writes f existing db after h = (
  tt,
  λ t. (
    tt,
    elim [
      | err e ↦ tt
      | ok b ↦ (
        (refl, refl, refl, (refl, stamped-IsOverFeature existing f t h)),
        elim [ err e ↦ tt | ok n ↦ tt ],
      )
    ],
  ),
)

finish :
    (f existing : Feature) (db : Database) (before after : Bytes)
    → NodupKeys (entries f.environment_settings)
    → Obeys
        (feature_writes f db)
        AnyEnd
        (at_outcome f existing after)
        (if before == after then ret tt else stamping f existing db)
finish f existing db before after h =
    Obeys-if (feature_writes f db) AnyEnd _ (before == after) (ret tt) (stamping f existing db) tt
      (stamping_writes f existing db after h)

-- Of a feature that gives no environment twice, `UpdateFeature` writes once at most, to the features
-- alone, whatever the database and the clock reply. It inserts only where no feature was decoded:
-- the one given, with the time as both dates. Otherwise it sets, on the document with the feature's
-- ID, the bytes of a feature that has the ID, description, default value, value type, tags and
-- environments given, the owner, organization, creation date, archive flag and revision of the one
-- decoded, and each environment setting given merged over the one decoded and no other.
pub update_feature_writes :
    (f : Feature) (db : Database)
    → NodupKeys (entries f.environment_settings)
    → Obeys (feature_writes f db) AnyEnd nothing_yet (update_feature f db)
unfolding update_feature find_one insert_one ◌>>=◌ attempt from_result done
update_feature_writes f db h = (
  tt,
  elim [
    | err e ↦ (tt, λ t. ((refl, refl, refl, (t, refl)), elim [ err e ↦ tt | ok n ↦ tt ]))
    | ok found ↦ (
      tt,
      elim [
        | err e ↦ tt
        | ok existing ↦ (
          tt,
          elim [
            | err e ↦ tt
            | ok before ↦ (tt, elim [ err e ↦ tt | ok after ↦ finish f existing db before after h ])
          ],
        )
      ],
    )
  ],
)
