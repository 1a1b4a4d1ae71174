-- ===== src/Updates/Organizations.antt =====
-- `UpdateOrganization`.
use k8sgrowthbook_controller.Prelude.{◌≡◌, refl, none, some, false, Bytes, or_empty, Slice}
use k8sgrowthbook_controller.Prelude.{◌==◌, text_eq, if◌then◌else◌, arith}
use k8sgrowthbook_controller.Api.Meta.{Time}
use k8sgrowthbook_controller.Documents.Organization.{Organization, OrganizationMember}
use k8sgrowthbook_controller.Effects.{
  ret, ok, err, Database, Document, organization_document, ◌>>=◌,
}
use k8sgrowthbook_controller.Effects.{attempt, from_result, done}
use k8sgrowthbook_controller.Effects.Monitors.{Monitor, Obeys}
use k8sgrowthbook_controller.Storage.{find_one, insert_one, update_one, by_id, set_document}
use k8sgrowthbook_controller.Growthbook.Organization.{organizations, update_organization, overlay}
use k8sgrowthbook_controller.Growthbook.Organization.{or_existing}
use k8sgrowthbook_controller.Updates.Upserts.{
  Watched, upserting, NoClears, nothing_yet, AnyEnd, Obeys-if,
}

-- The members given, or those there are for nil ones.
abbrev pub given_or : Slice OrganizationMember → Slice OrganizationMember → Slice OrganizationMember
given_or existing none = existing
given_or existing (some ms) = some ms

-- The written organization has the specification's identity, the specification's members unless
-- those are nil, and the document's date and revision.
pub record IsOverOrganization (o existing v : Organization) : Type 0 where
  pub id : v.id ≡ o.id
  pub owner_email : v.owner_email ≡ o.owner_email
  pub name : v.name ≡ o.name
  pub members : v.members ≡ given_or existing.members o.members
  pub date_created : v.date_created ≡ existing.date_created
  pub revision : v.revision ≡ existing.revision

abbrev pub OverOrganization : Organization → Document → Document → Type 0
OverOrganization o (organization_document existing) (organization_document v) =
    IsOverOrganization o existing v
OverOrganization o _ _ = ⊥

-- A new organization is the one given, at some time, with an empty list of members for a nil one.
abbrev pub FreshOrganization : Organization → Document → Type 0
FreshOrganization o d =
    (t : Time) × (d
      ≡ organization_document (record o { members = or_empty o.members; date_created = t }))

or_existing-given_or :
    (existing members : Slice OrganizationMember)
    → or_existing existing members ≡ given_or existing members
or_existing-given_or existing members = ground arith

overlay-IsOverOrganization :
    (existing o : Organization) → IsOverOrganization o existing (overlay existing o)
unfolding overlay
overlay-IsOverOrganization existing o = record {
  id = refl;
  owner_email = refl;
  name = refl;
  members = or_existing-given_or existing.members o.members;
  date_created = refl;
  revision = refl;
}

abbrev pub organization_writes : Organization → Database → Monitor Watched
organization_writes o db =
    upserting (organizations db) o.id (FreshOrganization o) (OverOrganization o) NoClears

-- The end of an update, with the organization decoded and the bytes of the outcome at hand.
finish :
    (o existing : Organization) (db : Database) (before after : Bytes)
    → Obeys
        (organization_writes o db)
        AnyEnd
        (record {
          found = some (organization_document existing);
          marshalled = some (organization_document (overlay existing o), after);
          written = false;
          stale = false;
        })
        (if before == after
          then ret tt
          else update_one (organizations db) (by_id o.id) (set_document after))
unfolding update_one done
finish o existing db before after =
    Obeys-if (organization_writes o db) AnyEnd _ (before == after) (ret tt)
      (update_one (organizations db) (by_id o.id) (set_document after)) tt
      (
        (refl, refl, refl, (refl, overlay-IsOverOrganization existing o)),
        elim [ err e ↦ tt | ok n ↦ tt ],
      )

-- Whatever the database and the clock reply, `UpdateOrganization` writes once at most, to the
-- organizations alone. It inserts only where no organization was decoded: the one given, with the
-- time and with an empty list for nil members. Otherwise it sets, on the document with the
-- organization's ID, the bytes of an organization with the ID, owner and name given, with the
-- members given unless they are nil, and with the creation date, the revision and, for nil
-- members, the members of the organization decoded.
pub update_organization_writes :
    (o : Organization) (db : Database)
    → Obeys (organization_writes o db) AnyEnd nothing_yet (update_organization o db)
unfolding update_organization find_one insert_one ◌>>=◌ attempt from_result done
update_organization_writes o db = (
  tt,
  elim [
    | err e ↦ (tt, λ t. ((refl, refl, refl, (t, refl)), elim [ err e ↦ tt | ok n ↦ tt ]))
    | ok found ↦ (
      tt,
      elim [
        | err e ↦ tt
        | ok existing ↦ (
          tt,
          elim [
            | err e ↦ tt
            | ok before ↦ (tt, elim [ err e ↦ tt | ok after ↦ finish o existing db before after ])
          ],
        )
      ],
    )
  ],
)
