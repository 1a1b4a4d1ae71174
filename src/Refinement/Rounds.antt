-- ===== src/Refinement/Rounds.antt =====
-- The loop over the organizations, in a world of four shelves that are apart.
use mathlib.Core.Path.{subst}
use k8sgrowthbook_controller.Prelude.{
  ◌≡◌, refl, sym, ap, ◌∙◌, true, Option, List, [], ◌∷◌, GoString, str,
}
use k8sgrowthbook_controller.Prelude.{text_eq}
use k8sgrowthbook_controller.Api.Organization.{GrowthbookOrganization}
use k8sgrowthbook_controller.Api.Instance.{GrowthbookInstance, GrowthbookInstanceStatus}
use k8sgrowthbook_controller.Effects.{ok, Database, Selector}
use k8sgrowthbook_controller.Effects.Runs.{
  Handler, run, run-then, run-failing_as, returned, Outcome,
}
use k8sgrowthbook_controller.Controller.Externals.{Externals, Stop}
use k8sgrowthbook_controller.Controller.Features.{reconcile_features}
use k8sgrowthbook_controller.Controller.Clients.{reconcile_clients}
use k8sgrowthbook_controller.Controller.Reconciler.{reconcile_each_organization, while_doing}
use k8sgrowthbook_controller.Refinement.Loops.{map_of}
use k8sgrowthbook_controller.Refinement.Loops.{AllChange-from, AllChange-to}
use k8sgrowthbook_controller.Refinement.Handling.{Reconciles}
use k8sgrowthbook_controller.Refinement.Registration.{with_status}
use k8sgrowthbook_controller.Refinement.Rollout.{feature_line, reconcile_features-Reconciles}
use k8sgrowthbook_controller.Refinement.Access.{client_line, reconcile_clients-Reconciles}
use k8sgrowthbook_controller.Refinement.Frames.{
  IsApart, elsewhere, reconcile_features_spares, reconcile_clients_spares,
}
use k8sgrowthbook_controller.Refinement.World.{Contents, IsWorld, IsCluster-for}
use k8sgrowthbook_controller.Refinement.Tenants.{Tenant, Tenants, FeaturesChange, ConnectionsChange}

module _ {S : Type 0} (x : Externals) (db : Database) (h : Handler S) (c : Contents S)
    (world : IsWorld x db h c) (i : GrowthbookInstance) (other : Selector)
    (valid : x.label_selector_as_selector i.spec.resource_selector ≡ ok other) where
  -- A run returns the instance with another status. It changes the features and the connections as it
  -- should, and neither users nor organizations.
  pub record ReconcilesTenants (orgs : List GrowthbookOrganization) (tenants : Tenants x h i orgs)
      (s : S) (o : Outcome Stop GrowthbookInstance × S) : Type 0 where
    pub status : GrowthbookInstanceStatus
    pub ends : o.0 ≡ returned (with_status i status)
    pub features :
        FeaturesChange x h i orgs tenants (map_of c.feature_of s) (map_of c.feature_of o.1)
    pub connections :
        ConnectionsChange x h i orgs tenants (map_of c.connection_of s) (map_of c.connection_of o.1)
    pub users_stay : (j : GoString) → c.user_of j o.1 ≡ c.user_of j s
    pub organizations_stay : (j : GoString) → c.organization_of j o.1 ≡ c.organization_of j s

  abbrev featuring :
      GrowthbookOrganization → GrowthbookInstanceStatus → S → Outcome Stop GrowthbookInstance × S
  featuring org status s = run h (reconcile_features x db (with_status i status) org) s

  abbrev featuring-Reconciles :
      (org : GrowthbookOrganization) (t : Tenant x h i org) (status : GrowthbookInstanceStatus)
      (s : S)
      → Reconciles
          (feature_line x i org)
          c.feature_of
          (with_status i status)
          (λ j. j)
          t.features
          t.features_ready
          s
          (featuring org status s)
  featuring-Reconciles org t status =
      reconcile_features-Reconciles x db h world.no_documents world.read_feature c.feature_of
        world.feature_shelf c.finalizers (IsCluster-for world.features_apart world.cluster)
        (with_status i status) org t.selector other t.features t.selects valid t.features_listed
        t.features_ready

  abbrev connecting :
      GrowthbookOrganization → GrowthbookInstanceStatus → S → Outcome Stop GrowthbookInstance × S
  connecting org status s = run h (reconcile_clients x db (with_status i status) org) s

  abbrev connecting-Reconciles :
      (org : GrowthbookOrganization) (t : Tenant x h i org) (status : GrowthbookInstanceStatus)
      (s : S)
      → Reconciles
          (client_line h i org)
          c.connection_of
          (with_status i status)
          (λ j. j)
          t.clients
          t.clients_ready
          s
          (connecting org status s)
  connecting-Reconciles org t status =
      reconcile_clients-Reconciles x db h world.no_documents world.connection_bson c.connection_of
        world.connection_shelf world.payload_cache c.finalizers
        (IsCluster-for world.connections_apart world.cluster) (with_status i status) org t.selector
        other t.clients t.selects valid t.clients_listed t.clients_ready

  -- One round of the loop.
  run-each :
      (org : GrowthbookOrganization) (orgs : List GrowthbookOrganization) (t : Tenant x h i org)
      (status : GrowthbookInstanceStatus) (s : S)
      → let a = featuring-Reconciles org t status s in
        let u = (featuring org status s).1 in
        let b = connecting-Reconciles org t a.status u in
        run h (reconcile_each_organization x db (org ∷ orgs) (with_status i status)) s
        ≡ run h
            (reconcile_each_organization x db orgs (with_status i b.status))
            (connecting org a.status u).1
  unfolding reconcile_each_organization
  run-each org orgs t status s =
      let i1 = with_status i status in
      let a = featuring-Reconciles org t status s in
      let u = (featuring org status s).1 in
      let b = connecting-Reconciles org t a.status u in
      let v = (connecting org a.status u).1 in
      run-then h (while_doing (str "failed reconciling features") (reconcile_features x db i1 org))
        _ s u (with_status i a.status)
        (run-failing_as h _ (reconcile_features x db i1 org) s u (with_status i a.status)
          (ap (λ (r : Outcome Stop GrowthbookInstance). (r, u)) a.ends))
      ∙ run-then h
          (while_doing (str "failed reconciling clients")
            (reconcile_clients x db (with_status i a.status) org))
          _ u v (with_status i b.status)
          (run-failing_as h _ (reconcile_clients x db (with_status i a.status) org) u v
            (with_status i b.status) (ap (λ (r : Outcome Stop GrowthbookInstance). (r, v)) b.ends))

  -- A round leaves the documents of another collection alone.
  round_spares :
      {A : Type 0} {name : GoString} {stored : GoString → S → Option A}
      (apart : IsApart h name stored) (org : GrowthbookOrganization)
      (status next : GrowthbookInstanceStatus) (s : S)
      → elsewhere name (str "features") ≡ true
      → elsewhere name (str "sdkconnections") ≡ true
      → elsewhere name (str "sdkpayloads") ≡ true
      → (j : GoString) → stored j (connecting org next (featuring org status s).1).1 ≡ stored j s
  round_spares apart org status next s e f g j =
      reconcile_clients_spares apart x db (with_status i next) f g org _ j
      ∙ reconcile_features_spares apart x db (with_status i status) e org s j

  pub each-Reconciles :
      (orgs : List GrowthbookOrganization) (ts : Tenants x h i orgs)
      (status : GrowthbookInstanceStatus) (s : S)
      → ReconcilesTenants orgs ts s
          (run h (reconcile_each_organization x db orgs (with_status i status)) s)
  unfolding reconcile_each_organization str text_eq
  each-Reconciles [] ts status s = record {
    status = status;
    ends = refl;
    features = λ j. refl;
    connections = λ j. refl;
    users_stay = λ j. refl;
    organizations_stay = λ j. refl;
  }
  each-Reconciles (org ∷ orgs) (t, ts) status s =
      let a = featuring-Reconciles org t status s in
      let u = (featuring org status s).1 in
      let b = connecting-Reconciles org t a.status u in
      let v = (connecting org a.status u).1 in
      let rest = each-Reconciles orgs ts b.status v in
      subst (ReconcilesTenants (org ∷ orgs) (t, ts) s) (sym (run-each org orgs t status s))
        (record {
          status = rest.status;
          ends = rest.ends;
          features = (
            map_of c.feature_of v,
            AllChange-to (feature_line x i org) t.features t.features_ready (map_of c.feature_of s)
                (map_of c.feature_of u) (map_of c.feature_of v)
                (reconcile_clients_spares world.features_apart x db (with_status i a.status) refl
                  refl org u)
                a.changes,
            rest.features,
          );
          connections = (
            map_of c.connection_of v,
            AllChange-from (client_line h i org) t.clients t.clients_ready
                (map_of c.connection_of u) (map_of c.connection_of s) (map_of c.connection_of v)
                (reconcile_features_spares world.connections_apart x db (with_status i status) refl
                  org s)
                b.changes,
            rest.connections,
          );
          users_stay = λ j.
              rest.users_stay j
              ∙ round_spares world.users_apart org status a.status s refl refl refl j;
          organizations_stay = λ j.
              rest.organizations_stay j
              ∙ round_spares world.organizations_apart org status a.status s refl refl refl j;
        })
