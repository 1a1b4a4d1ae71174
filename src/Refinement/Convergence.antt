-- ===== src/Refinement/Convergence.antt =====
-- `reconcile` while it is connected: users, organizations, and the features and clients of each.
use mathlib.Core.Path.{subst}
use k8sgrowthbook_controller.Prelude.{
  ◌≡◌, refl, sym, ap, ◌∙◌, true, Option, List, [], GoString, str,
}
use k8sgrowthbook_controller.Prelude.{text_eq}
use k8sgrowthbook_controller.Api.User.{GrowthbookUser}
use k8sgrowthbook_controller.Api.Organization.{GrowthbookOrganization}
use k8sgrowthbook_controller.Api.Instance.{GrowthbookInstance, GrowthbookInstanceStatus}
use k8sgrowthbook_controller.Effects.{ok, Database, Selector, list_users, list_organizations}
use k8sgrowthbook_controller.Effects.Runs.{
  Handler, run, run-then, run-failing_as, returned, Outcome,
}
use k8sgrowthbook_controller.Controller.Externals.{Externals, Stop}
use k8sgrowthbook_controller.Controller.Users.{reconcile_users}
use k8sgrowthbook_controller.Controller.Organizations.{reconcile_organizations}
use k8sgrowthbook_controller.Controller.Reconciler.{while_doing, reconcile_connected}
use k8sgrowthbook_controller.Controller.Reconciler.{reconcile_each_organization}
use k8sgrowthbook_controller.Refinement.Loops.{AllReady, AllChange, map_of}
use k8sgrowthbook_controller.Refinement.Loops.{AllChange-from, AllChange-to}
use k8sgrowthbook_controller.Refinement.Handling.{Reconciles}
use k8sgrowthbook_controller.Refinement.Registration.{with_status}
use k8sgrowthbook_controller.Refinement.Population.{user_line, reconcile_users-Reconciles}
use k8sgrowthbook_controller.Refinement.Membership.{
  organization_line, reconcile_organizations-Reconciles,
}
use k8sgrowthbook_controller.Refinement.Frames.{IsApart, elsewhere, reconcile_users_spares}
use k8sgrowthbook_controller.Refinement.Frames.{reconcile_organizations_spares}
use k8sgrowthbook_controller.Refinement.World.{Contents, IsWorld, IsCluster-for}
use k8sgrowthbook_controller.Refinement.Tenants.{Tenants, FeaturesChange, ConnectionsChange}
use k8sgrowthbook_controller.Refinement.Tenants.{FeaturesChange-from, FeaturesChange-to}
use k8sgrowthbook_controller.Refinement.Tenants.{ConnectionsChange-from, ConnectionsChange-to}
use k8sgrowthbook_controller.Refinement.Rounds.{each-Reconciles}

-- What the cluster lists for an instance, and that it is ready.
pub record Estate {S : Type 0} (x : Externals) (h : Handler S) (i : GrowthbookInstance)
    : Type 0 where
  pub selector : Selector
  pub users : List GrowthbookUser
  pub organizations : List GrowthbookOrganization
  pub selects : x.label_selector_as_selector i.spec.resource_selector ≡ ok selector
  pub users_listed :
      (s : S) → h (list_users i.object.object_meta.namespace selector) s ≡ (ok users, s)
  pub organizations_listed :
      (s : S)
      → h (list_organizations i.object.object_meta.namespace selector) s ≡ (ok organizations, s)
  pub users_ready : AllReady (user_line x h i) users
  pub organizations_ready : AllReady (organization_line x h i) organizations
  pub tenants : Tenants x h i organizations

-- All documents are as before.
pub record IsSame {S : Type 0} (c : Contents S) (s t : S) : Type 0 where
  pub users : (j : GoString) → c.user_of j t ≡ c.user_of j s
  pub organizations : (j : GoString) → c.organization_of j t ≡ c.organization_of j s
  pub features : (j : GoString) → c.feature_of j t ≡ c.feature_of j s
  pub connections : (j : GoString) → c.connection_of j t ≡ c.connection_of j s

module _ {S : Type 0} (x : Externals) (h : Handler S) (c : Contents S) (i : GrowthbookInstance)
    (estate : Estate x h i) where
  -- From one state to another the documents of each kind change one resource after the other.
  pub record Converges (s t : S) : Type 0 where
    pub users :
        AllChange
          (user_line x h i)
          estate.users
          estate.users_ready
          (map_of c.user_of s)
          (map_of c.user_of t)
    pub organizations :
        AllChange
          (organization_line x h i)
          estate.organizations
          estate.organizations_ready
          (map_of c.organization_of s)
          (map_of c.organization_of t)
    pub features :
        FeaturesChange x h i estate.organizations estate.tenants
          (map_of c.feature_of s)
          (map_of c.feature_of t)
    pub connections :
        ConnectionsChange x h i estate.organizations estate.tenants
          (map_of c.connection_of s)
          (map_of c.connection_of t)

  pub Converges-from : (r s t : S) → IsSame c r s → Converges s t → Converges r t
  Converges-from r s t e p = record {
    users = AllChange-from (user_line x h i) _ _ _ _ _ e.users p.users;
    organizations =
        AllChange-from (organization_line x h i) _ _ _ _ _ e.organizations p.organizations;
    features = FeaturesChange-from x h i _ _ _ _ _ e.features p.features;
    connections = ConnectionsChange-from x h i _ _ _ _ _ e.connections p.connections;
  }

  pub Converges-to : (s t u : S) → IsSame c t u → Converges s t → Converges s u
  Converges-to s t u e p = record {
    users = AllChange-to (user_line x h i) _ _ _ _ _ e.users p.users;
    organizations =
        AllChange-to (organization_line x h i) _ _ _ _ _ e.organizations p.organizations;
    features = FeaturesChange-to x h i _ _ _ _ _ e.features p.features;
    connections = ConnectionsChange-to x h i _ _ _ _ _ e.connections p.connections;
  }

module _ {S : Type 0} (x : Externals) (db : Database) (h : Handler S) (c : Contents S)
    (world : IsWorld x db h c) (i : GrowthbookInstance) (estate : Estate x h i)
    (from : GrowthbookInstanceStatus) where
  -- A run returns the instance with another status, and the documents converge.
  pub record EndsConverged (s : S) (o : Outcome Stop GrowthbookInstance × S) : Type 0 where
    pub status : GrowthbookInstanceStatus
    pub ends : o.0 ≡ returned (with_status i status)
    pub converges : Converges x h c i estate s o.1

  abbrev emptied : GrowthbookInstanceStatus
  emptied = record from { sub_resource_catalog = [] }

  abbrev populating : S → Outcome Stop GrowthbookInstance × S
  populating s = run h (reconcile_users x db (with_status i emptied)) s

  abbrev populating-Reconciles :
      (s : S)
      → Reconciles
          (user_line x h i)
          c.user_of
          (with_status i emptied)
          (λ j. j)
          estate.users
          estate.users_ready
          s
          (populating s)
  populating-Reconciles =
      reconcile_users-Reconciles x db h world.no_documents world.user_bson c.user_of
        world.user_shelf c.finalizers world.cluster world.hashes (with_status i emptied)
        estate.selector estate.users estate.selects estate.users_listed estate.users_ready

  abbrev organizing :
      GrowthbookInstanceStatus
      → S
      → Outcome Stop (GrowthbookInstance × List GrowthbookOrganization) × S
  organizing status s = run h (reconcile_organizations x db (with_status i status)) s

  abbrev organizing-Reconciles :
      (status : GrowthbookInstanceStatus) (s : S)
      → Reconciles
          (organization_line x h i)
          c.organization_of
          (with_status i status)
          (λ j. (j, estate.organizations))
          estate.organizations
          estate.organizations_ready
          s
          (organizing status s)
  organizing-Reconciles status =
      reconcile_organizations-Reconciles x db h world.no_documents world.organization_bson
        c.organization_of world.organization_shelf c.finalizers
        (IsCluster-for world.organizations_apart world.cluster) (with_status i status)
        estate.selector estate.organizations estate.selects estate.organizations_listed
        estate.organizations_ready

  run-connected :
      (s : S)
      → let a = populating-Reconciles s in
        let u = (populating s).1 in
        let b = organizing-Reconciles a.status u in
        run h (reconcile_connected x db (with_status i from)) s
        ≡ run h
            (reconcile_each_organization x db estate.organizations (with_status i b.status))
            (organizing a.status u).1
  unfolding reconcile_connected
  run-connected s =
      let a = populating-Reconciles s in
      let u = (populating s).1 in
      let b = organizing-Reconciles a.status u in
      let v = (organizing a.status u).1 in
      run-then h
        (while_doing (str "failed reconciling users")
          (reconcile_users x db (with_status i emptied)))
        _ s u (with_status i a.status)
        (run-failing_as h _ (reconcile_users x db (with_status i emptied)) s u
          (with_status i a.status) (ap (λ (r : Outcome Stop GrowthbookInstance). (r, u)) a.ends))
      ∙ run-then h
          (while_doing (str "failed reconciling organizations")
            (reconcile_organizations x db (with_status i a.status)))
          _ u v (with_status i b.status, estate.organizations)
          (run-failing_as h _ (reconcile_organizations x db (with_status i a.status)) u v
            (with_status i b.status, estate.organizations)
            (ap (λ (r : Outcome Stop (GrowthbookInstance × List GrowthbookOrganization)). (r, v))
              b.ends))

  -- The first two handlers leave the documents of another collection alone.
  handlers_spare :
      {A : Type 0} {name : GoString} {stored : GoString → S → Option A}
      (apart : IsApart h name stored) (status : GrowthbookInstanceStatus) (s : S)
      → elsewhere name (str "users") ≡ true
      → elsewhere name (str "organizations") ≡ true
      → (j : GoString) → stored j (organizing status (populating s).1).1 ≡ stored j s
  handlers_spare apart status s e f j =
      reconcile_organizations_spares apart x db (with_status i status) f (populating s).1 j
      ∙ reconcile_users_spares apart x db (with_status i emptied) e s j

  -- In a world of four shelves that are apart, with a cluster that lists the resources of an instance,
  -- each of them ready, what `reconcile` does while it is connected succeeds and returns the instance
  -- with at most another status. Each map of documents changes as the handlers change it: the users
  -- and the organizations one listed resource after the other, the features and the connections one
  -- organization after the other, and by nothing else.
  pub reconcile_connected-Converges :
      (s : S) → EndsConverged s (run h (reconcile_connected x db (with_status i from)) s)
  unfolding str text_eq
  reconcile_connected-Converges s =
      let a = populating-Reconciles s in
      let u = (populating s).1 in
      let b = organizing-Reconciles a.status u in
      let v = (organizing a.status u).1 in
      let r =
        each-Reconciles x db h c world i estate.selector estate.selects estate.organizations
          estate.tenants b.status v in
      subst (EndsConverged s) (sym (run-connected s)) (record {
        status = r.status;
        ends = r.ends;
        converges = record {
          users =
              AllChange-to (user_line x h i) estate.users estate.users_ready _ _ _
                (λ j.
                  r.users_stay j
                  ∙ reconcile_organizations_spares world.users_apart x db (with_status i a.status)
                      refl u j)
                a.changes;
          organizations =
              AllChange-to (organization_line x h i) estate.organizations estate.organizations_ready
                _ _ _ r.organizations_stay
                (AllChange-from (organization_line x h i) estate.organizations
                  estate.organizations_ready _ _ _
                  (reconcile_users_spares world.organizations_apart x db (with_status i emptied)
                    refl s)
                  b.changes);
          features =
              FeaturesChange-from x h i estate.organizations estate.tenants _ _ _
                (handlers_spare world.features_apart a.status s refl refl) r.features;
          connections =
              ConnectionsChange-from x h i estate.organizations estate.tenants _ _ _
                (handlers_spare world.connections_apart a.status s refl refl) r.connections;
        };
      })
