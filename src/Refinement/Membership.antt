-- ===== src/Refinement/Membership.antt =====
-- `reconcileOrganizations` on a shelf of organizations and in a cluster.
use k8sgrowthbook_controller.Prelude.{
  ◌≡◌, refl, Bool, true, false, Option, none, some, List, [], ◌∷◌, map, append, Slice,
}
use k8sgrowthbook_controller.Prelude.{GoString, Bytes, ◌∙◌, if◌then◌else◌}
use k8sgrowthbook_controller.Api.Meta.{Object, ObjectKey}
use k8sgrowthbook_controller.Api.User.{GrowthbookUser}
use k8sgrowthbook_controller.Api.Organization.{GrowthbookOrganization, GrowthbookOrganizationUser}
use k8sgrowthbook_controller.Api.Organization.{get_id}
use k8sgrowthbook_controller.Api.Instance.{GrowthbookInstance}
use k8sgrowthbook_controller.Documents.Organization.{Organization, OrganizationMember}
use k8sgrowthbook_controller.Documents.Organization.{empty_organization}
use k8sgrowthbook_controller.Effects.{Error, ok, Database, Selector, list_users, list_organizations}
use k8sgrowthbook_controller.Effects.{call, from_result, ◌>>=◌, Prog}
use k8sgrowthbook_controller.Effects.Runs.{Handler, run, run-call, run-then, returned}
use k8sgrowthbook_controller.Growthbook.Organization.{organizations, from_v1beta1}
use k8sgrowthbook_controller.Growthbook.Organization.{update_organization, delete_organization}
use k8sgrowthbook_controller.Controller.Catalog.{organization_resource}
use k8sgrowthbook_controller.Controller.Externals.{Externals}
use k8sgrowthbook_controller.Controller.Resources.{selector_of, both_live, retire}
use k8sgrowthbook_controller.Controller.Organizations.{member, add_members, reconcile_organization}
use k8sgrowthbook_controller.Controller.Organizations.{reconcile_organizations}
use k8sgrowthbook_controller.Refinement.Shelf.{IsShelf-IsErasable, IsShelf}
use k8sgrowthbook_controller.Refinement.Organizations.{organization_kind, AfterOrganization}
use k8sgrowthbook_controller.Refinement.Organizations.{update_organization_refines}
use k8sgrowthbook_controller.Refinement.Cluster.{IsCluster}
use k8sgrowthbook_controller.Refinement.Registration.{with_status}
use k8sgrowthbook_controller.Refinement.Retirement.{retire-Retired}
use k8sgrowthbook_controller.Refinement.Loops.{Line, AllReady, Changes, Does}
use k8sgrowthbook_controller.Refinement.Handling.{Reconciles, handling-Reconciles}
use k8sgrowthbook_controller.Refinement.Selecting.{run-selector_of}

-- The organization that the resource describes, with these members.
abbrev pub organization_of : GrowthbookOrganization → Slice OrganizationMember → Organization
organization_of org members = record (from_v1beta1 empty_organization org) { members = members }

module _ {S : Type 0} (x : Externals) (h : Handler S) (i : GrowthbookInstance) where
  -- None of the bindings is nil. Those in the list add, one after the other, the users that the
  -- cluster lists for the selector in the namespace of the instance, with the role of the binding.
  abbrev pub Resolves :
      List (Option GrowthbookOrganizationUser)
      → Slice OrganizationMember
      → Slice OrganizationMember
      → Type 0
  Resolves [] before members = members ≡ before
  Resolves (none ∷ bindings) before members = ⊥
  Resolves (some binding ∷ bindings) before members =
      (selector : Selector) × (us : List GrowthbookUser) × (x.label_selector_as_selector
          binding.selector
        ≡ ok selector)
      × ((s : S) → h (list_users i.object.object_meta.namespace selector) s ≡ (ok us, s))
      × Resolves bindings (append before (map (member binding.role) us)) members

  -- The members are asked for whether or not the organization stays.
  abbrev MembersResolved : Bool → GrowthbookOrganization → Type 0
  MembersResolved live org =
      (members : Slice OrganizationMember) × Resolves org.spec.users none members

  -- The organizations of an instance.
  abbrev pub organization_line : Line Organization GrowthbookOrganization
  organization_line = record {
    live = λ org. both_live i org.object;
    prune = i.spec.prune;
    id = get_id;
    Ready = MembersResolved;
    After = λ org q. AfterOrganization (organization_of org q.0);
  }

  run-add_members :
      (db : Database) (bindings : List (Option GrowthbookOrganizationUser)) (o : Organization)
      (members : Slice OrganizationMember)
      → Resolves bindings o.members members
      → (s : S)
      → run h (add_members x db i bindings o) s ≡ (returned (record o { members = members }), s)
  unfolding add_members from_result ◌>>=◌
  run-add_members db [] o members q s = rw q refl
  run-add_members db (none ∷ bindings) o members q s = absurd q
  run-add_members db (some binding ∷ bindings) o members (selector, us, e, listed, q) s =
      let o' = record o { members = append o.members (map (member binding.role) us) } in
      run-then h (selector_of x binding.selector) _ s s selector (run-selector_of x h e s)
      ∙ run-call h (list_users i.object.object_meta.namespace selector)
          (λ r. from_result r >>= λ us.
            add_members x db i bindings
              (record o { members = append o.members (map (member binding.role) us) }))
          s s (ok us) (listed s)
      ∙ run-add_members db bindings o' members q s

module _ {S : Type 0} (x : Externals) (db : Database) (h : Handler S) (no_documents : Error)
    (encode : Organization → Bytes) (stored : GoString → S → Option Organization)
    (laws : IsShelf h (organization_kind encode) (organizations db) no_documents stored)
    (finalizers : ObjectKey → S → List GoString)
    (cluster : (obj : Object) → IsCluster h stored finalizers obj) where
  -- What is done with the organization once it has its members.
  abbrev placing : GrowthbookInstance → GrowthbookOrganization → Organization → Prog Error Unit
  placing i org o =
      if both_live i org.object
      then update_organization o db
      else retire x i org.object (delete_organization o db)

  placed :
      (i : GrowthbookInstance) (org : GrowthbookOrganization) (live : Bool)
      (q : MembersResolved x h i live org) (s : S)
      → both_live i org.object ≡ live
      → Does stored
          (Changes (organization_line x h i) org live q)
          s
          (run h (placing i org (organization_of org q.0)) s)
  unfolding from_v1beta1 delete_organization
  placed i org true q s e =
      let l =
        update_organization_refines db h no_documents encode stored laws (organization_of org q.0)
          s in
      rw e (l.ends, (l.outcome, l.holds, l.puts))
  placed i org false q s e =
      let r = retire-Retired (IsShelf-IsErasable laws) (cluster org.object) x i (get_id org) s in
      rw e (r.ends, r.documents)

  one :
      (i : GrowthbookInstance) (org : GrowthbookOrganization)
      (q : MembersResolved x h i (both_live i org.object) org) (s : S)
      → Does stored
          (Changes (organization_line x h i) org (both_live i org.object) q)
          s
          (run h (reconcile_organization x db i org) s)
  unfolding reconcile_organization from_v1beta1
  one i org q s =
      rw
        (run-then h (add_members x db i org.spec.users (from_v1beta1 empty_organization org))
          (placing i org) s s (organization_of org q.0)
          (run-add_members x h i db org.spec.users (from_v1beta1 empty_organization org) q.0 q.1 s))
        (placed i org (both_live i org.object) q s refl)

  module _ (i : GrowthbookInstance) (selector : Selector) (orgs : List GrowthbookOrganization)
      (selects : x.label_selector_as_selector i.spec.resource_selector ≡ ok selector)
      (listed : (s : S)
        → h (list_organizations i.object.object_meta.namespace selector) s ≡ (ok orgs, s))
      (ready : AllReady (organization_line x h i) orgs) where
    -- On a shelf of organizations, in a cluster that takes patches, lists `orgs` for the selector of the
    -- instance, and lists the users for each binding of each organization, none of which is nil,
    -- `reconcileOrganizations` succeeds and returns the instance with at most another status beside
    -- the organizations as listed. The map of organizations by their ID changes one listed
    -- organization after the other: one that stays, if the instance does too, is put in as
    -- `UpdateOrganization` puts in the one described with the users listed as members; of any other
    -- the document goes if the instance prunes, and nothing changes if not.
    pub reconcile_organizations-Reconciles :
        (s : S)
        → Reconciles
            (organization_line x h i)
            stored
            i
            (λ j. (j, orgs))
            orgs
            ready
            s
            (run h (reconcile_organizations x db i) s)
    unfolding reconcile_organizations from_result
    reconcile_organizations-Reconciles =
        handling-Reconciles x h stored finalizers cluster i (organization_line x h i)
          organization_resource (selector_of x i.spec.resource_selector)
          (λ sel. call (list_organizations i.object.object_meta.namespace sel) from_result)
          (reconcile_organization x db) (λ orgs j. (j, orgs)) selector orgs
          (run-selector_of x h selects)
          (λ s.
            run-call h (list_organizations i.object.object_meta.namespace selector) from_result s s
              (ok orgs) (listed s))
          (λ status org q s. one (with_status i status) org q s) ready
