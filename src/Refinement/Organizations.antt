-- ===== src/Refinement/Organizations.antt =====
-- `UpdateOrganization` on a shelf of organizations.
use k8sgrowthbook_controller.Prelude.{◌≡◌, refl, sym, ap, ◌∙◌, Option, none, some, GoString, Bytes}
use k8sgrowthbook_controller.Prelude.{Slice, or_empty}
use k8sgrowthbook_controller.Api.Meta.{Time}
use k8sgrowthbook_controller.Documents.Organization.{Organization, OrganizationMember}
use k8sgrowthbook_controller.Effects.{Error, Database, call, organization_document, now}
use k8sgrowthbook_controller.Effects.{decode_organization, from_result, ◌>>=◌, attempt}
use k8sgrowthbook_controller.Effects.Runs.{Handler, run, Outcome, returned}
use k8sgrowthbook_controller.Storage.{insert_one, update_one, by_id, set_document, find_one}
use k8sgrowthbook_controller.Growthbook.Organization.{organizations, update_organization}
use k8sgrowthbook_controller.Growthbook.Organization.{update_found, overlay, or_existing}
use k8sgrowthbook_controller.Updates.Organizations.{given_or}
use k8sgrowthbook_controller.Refinement.Shelf.{Kind, IsShelf, Lands}
use k8sgrowthbook_controller.Refinement.Upsert.{Plan, upsert, Lands-upsert}
use k8sgrowthbook_controller.Refinement.Landing.{Lands-insert_one}
use k8sgrowthbook_controller.Refinement.Upsert.{upsert-again}
use k8sgrowthbook_controller.Refinement.Landing.{Lands-update_one, Lands-from}

abbrev pub organization_kind : (Organization → Bytes) → Kind Organization
organization_kind encode = record {
  document = organization_document;
  decode = λ b. call (decode_organization b) from_result;
  id = λ o. o.id;
  encode = encode;
}

abbrev created : Organization → Time → Organization
created o t = record o { members = or_empty o.members; date_created = t }

abbrev organization_plan : Organization → Database → Plan Organization
organization_plan o db = record {
  id = o.id;
  fresh = call now λ t. insert_one (organizations db) (organization_document (created o t));
  over = λ e. overlay e o;
  commit = λ e b. update_one (organizations db) (by_id o.id) (set_document b);
}

-- What may become of an organization. A new one is as given, with no nil members, of some date. Else
-- the date and the revision stay, and so do the members for which none are given.
abbrev pub AfterOrganization : Organization → Option Organization → Organization → Type 0
AfterOrganization o none v = (t : Time) × (v ≡ created o t)
AfterOrganization o (some e) v = v ≡ record o {
  members = given_or e.members o.members;
  date_created = e.date_created;
  revision = e.revision;
}

or_empty_again : (m : Slice OrganizationMember) → or_existing (or_empty m) m ≡ or_empty m
or_empty_again none = refl
or_empty_again (some ms) = refl

given_or_again : (e m : Slice OrganizationMember) → or_existing (given_or e m) m ≡ given_or e m
given_or_again e none = refl
given_or_again e (some ms) = refl

or_existing-given_or : (e m : Slice OrganizationMember) → or_existing e m ≡ given_or e m
or_existing-given_or e none = refl
or_existing-given_or e (some ms) = refl

over_given : (e o : Organization) → AfterOrganization o (some e) (overlay e o)
unfolding overlay
over_given e o =
    ap (λ m. record o { members = m; date_created = e.date_created; revision = e.revision })
      (or_existing-given_or e.members o.members)

over_again :
    (o v : Organization) (e : Option Organization) → AfterOrganization o e v → overlay v o ≡ v
unfolding overlay
over_again o v none (t, p) =
    rw p (ap (λ m. record o { members = m; date_created = t }) (or_empty_again o.members))
over_again o v (some e) p = rw p (
    ap (λ m. record o { members = m; date_created = e.date_created; revision = e.revision })
      (given_or_again e.members o.members))

-- An organization that was put in is put in again as it is.
pub AfterOrganization-again :
    (o : Organization) (e : Option Organization) (v w : Organization)
    → AfterOrganization o e v
    → AfterOrganization o (some v) w
    → w ≡ v
AfterOrganization-again o e v w p q = q ∙ sym (over_given v o) ∙ over_again o v e p

module _ {S : Type 0} (db : Database) (h : Handler S) (no_documents : Error)
    (encode : Organization → Bytes) (stored : GoString → S → Option Organization)
    (laws : IsShelf h (organization_kind encode) (organizations db) no_documents stored)
    (o : Organization) where
  abbrev planned : S → Outcome Error Unit × S
  planned s =
      run h (upsert (organization_kind encode) (organization_plan o db) (organizations db)) s

  scheme : (s : S) → run h (update_organization o db) s ≡ planned s
  unfolding update_organization update_found upsert ◌>>=◌ attempt find_one from_result
  scheme s = refl

  landing : (s : S) → Lands stored o.id (AfterOrganization o (stored o.id s)) s (planned s)
  unfolding overlay
  landing =
      Lands-upsert laws (organization_plan o db) (AfterOrganization o)
        (λ t e.
          Lands-from o.id (AfterOrganization o none) t (h now t).1 _ (λ j. laws.ticks j t)
            (Lands-insert_one laws _ (h now t).1 (created o (h now t).0) (laws.ticks o.id t ∙ e)
              ((h now t).0, refl)))
        (λ e. over_given e o)
        (λ e t q. Lands-update_one laws _ t (overlay e o) e q (over_given e o))

  -- On a shelf of organizations `UpdateOrganization` succeeds. It puts in, under the organization's
  -- ID, a new organization if there was none: the one given, dated, with an empty list for nil
  -- members. Otherwise it puts in the one given with the date and revision of the one there was, and
  -- with its members where those given are nil. No other organization changes.
  pub update_organization_refines :
      (s : S)
      → Lands stored o.id
          (AfterOrganization o (stored o.id s))
          s
          (run h (update_organization o db) s)
  update_organization_refines s = rw (scheme s) (landing s)

  -- On such a shelf a second `UpdateOrganization` of the same organization succeeds and changes
  -- nothing at all.
  pub update_organization_settles :
      (s : S)
      → let t = (run h (update_organization o db) s).1 in
        run h (update_organization o db) t ≡ (returned tt, t)
  update_organization_settles s =
      scheme _
      ∙ rw (scheme s) (
          upsert-again laws (organization_plan o db) (AfterOrganization o (stored o.id s)) s
            (planned s) (landing s) (λ v e. over_again o v (stored o.id s) e))
