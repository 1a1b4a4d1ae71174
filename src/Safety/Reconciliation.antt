-- ===== src/Safety/Reconciliation.antt =====
-- The calls of a whole reconciliation, and the instance that it returns.
use k8sgrowthbook_controller.Prelude.{
  Bool, true, ◌≡◌, refl, GoString, List, [], ◌∷◌, str, ◌&&◌, contains, text_eq,
}
use k8sgrowthbook_controller.Prelude.{Option, none, some}
use k8sgrowthbook_controller.Api.Meta.{is_live, SecretReference}
use k8sgrowthbook_controller.Api.Organization.{GrowthbookOrganization}
use k8sgrowthbook_controller.Api.Instance.{GrowthbookInstance}
use k8sgrowthbook_controller.Effects.{Database, MongoClient}
use k8sgrowthbook_controller.Effects.Traces.{Ensures, AllCalls, Ensures-ret, Ensures-bind}
use k8sgrowthbook_controller.Effects.Traces.{Ensures-deferring}
use k8sgrowthbook_controller.Effects.Traces.{trace_rules}
use k8sgrowthbook_controller.Storage.{disconnect}
use k8sgrowthbook_controller.Controller.Externals.{Externals}
use k8sgrowthbook_controller.Controller.Catalog.{set_catalog}
use k8sgrowthbook_controller.Controller.Provider.{mongo_db_provider}
use k8sgrowthbook_controller.Controller.Reconciler.{
  reconcile_each_organization, reconcile_connected,
}
use k8sgrowthbook_controller.Controller.Reconciler.{reconcile, root_credentials}
use k8sgrowthbook_controller.Safety.Permissions.{Permitted, everywhere}
use k8sgrowthbook_controller.Safety.Resources.{Allows}
use k8sgrowthbook_controller.Safety.Resources.{get_username_password-Permitted}
use k8sgrowthbook_controller.Safety.Handlers.{
  Keeps, KeepsStop, Keeps-refl, Allows-Keeps, Reconciles, May,
}
use k8sgrowthbook_controller.Safety.Handlers.{while_doing-May, from-Keeps, asking-May}
use k8sgrowthbook_controller.Safety.Handlers.{reconcile_users-May, reconcile_organizations-May}
use k8sgrowthbook_controller.Safety.Handlers.{reconcile_features-May, reconcile_clients-May}

-- The collections that `reconcile` writes in.
abbrev pub managed : List GoString
managed =
    str "users"
    ∷ str "organizations"
    ∷ str "features"
    ∷ str "sdkconnections"
    ∷ str "sdkpayloads"
    ∷ []

-- In each of them.
pub record AllowsAll (upsert delete : GoString → Bool) (i : GrowthbookInstance) : Type 0 where
  pub users : Allows upsert delete (str "users") i
  pub organizations : Allows upsert delete (str "organizations") i
  pub features : Allows upsert delete (str "features") i
  pub connections : Allows upsert delete (str "sdkconnections") i
  pub payloads : Allows upsert delete (str "sdkpayloads") i

module _ (upsert delete : GoString → Bool) (connect : Bool) where
  abbrev keep :
      {i j : GrowthbookInstance} → AllowsAll upsert delete i → Keeps i j → AllowsAll upsert delete j
  keep a k = record {
    users = Allows-Keeps upsert delete connect a.users k;
    organizations = Allows-Keeps upsert delete connect a.organizations k;
    features = Allows-Keeps upsert delete connect a.features k;
    connections = Allows-Keeps upsert delete connect a.connections k;
    payloads = Allows-Keeps upsert delete connect a.payloads k;
  }

  module _ (x : Externals) where
    each-May :
        (db : Database) (orgs : List GrowthbookOrganization) (i : GrowthbookInstance)
        → AllowsAll upsert delete i
        → Reconciles upsert delete connect i (reconcile_each_organization x db orgs i)
    unfolding reconcile_each_organization
    each-May db [] i a = Ensures-ret i (Keeps-refl i)
    each-May db (org ∷ orgs) i a =
        Ensures-bind (Keeps i) _ _
          (while_doing-May upsert delete connect i (Keeps i) _ _
            (reconcile_features-May upsert delete connect x db i a.features org))
          λ j k. from-Keeps upsert delete connect _ k (
            Ensures-bind (Keeps j) _ _
              (while_doing-May upsert delete connect j (Keeps j) _ _ (
                reconcile_clients-May upsert delete connect x db j (keep a k).connections
                  (keep a k).payloads org))
              λ l m. from-Keeps upsert delete connect _ m (each-May db orgs l (keep (keep a k) m)))

    pub reconcile_connected-May :
        (db : Database) (i : GrowthbookInstance)
        → AllowsAll upsert delete i
        → Reconciles upsert delete connect i (reconcile_connected x db i)
    unfolding reconcile_connected
    reconcile_connected-May db i a =
        let c : Keeps i (set_catalog i []) = record { object = refl; spec = refl } in
        from-Keeps upsert delete connect _ c (
          Ensures-bind (Keeps (set_catalog i [])) _ _
            (while_doing-May upsert delete connect _ (Keeps (set_catalog i [])) _ _
              (reconcile_users-May upsert delete connect x db _ (keep a c).users))
            λ j k. from-Keeps upsert delete connect _ k (
              Ensures-bind (λ r. Keeps j r.0) _ _
                (while_doing-May upsert delete connect j (λ r. Keeps j r.0) _ _
                  (reconcile_organizations-May upsert delete connect x db j
                    (keep (keep a c) k).organizations))
                λ r m.
                  from-Keeps upsert delete connect _ m
                    (each-May db r.1 r.0 (keep (keep (keep a c) k) m))))

    pub root_credentials-May :
        (i : GrowthbookInstance) (ref : Option SecretReference)
        → AllCalls (May upsert delete connect) (root_credentials i ref)
    root_credentials-May i none = search trace_rules
    root_credentials-May i (some ref) =
        get_username_password-Permitted x upsert delete connect i (some ref)

    module _ (may : connect ≡ true) where
      provider-May :
          (i : GrowthbookInstance) (username password : GoString)
          → AllCalls (May upsert delete connect) (mongo_db_provider x i username password)
      unfolding mongo_db_provider
      provider-May i username password = search trace_rules depth 8

      disconnect-May : (c : MongoClient) → AllCalls (May upsert delete connect) (disconnect c)
      unfolding disconnect
      disconnect-May c = search trace_rules

-- The same for an instance that the permissions allow for.
pub reconcile-May :
    (upsert delete : GoString → Bool) (connect : Bool) (x : Externals) (i : GrowthbookInstance)
    → AllowsAll upsert delete i
    → connect ≡ true
    → Ensures
        (Permitted upsert delete connect)
        (Keeps i)
        (KeepsStop i)
        (reconcile x (mongo_db_provider x) i)
unfolding reconcile
reconcile-May u d c x i a may =
    asking-May u d c x (Keeps i) i _ _ (root_credentials-May u d c x i i.spec.mongo_db.secret)
      λ credentials.
        asking-May u d c x (Keeps i) i _ _ (provider-May u d c x may i credentials.0 credentials.1)
          λ connected.
            Ensures-deferring (disconnect connected.0) _ (disconnect-May u d c x may connected.0)
              (reconcile_connected-May u d c x connected.1 i a)

pub everywhere-AllowsAll : (i : GrowthbookInstance) → AllowsAll everywhere everywhere i
everywhere-AllowsAll i = record {
  users = all;
  organizations = all;
  features = all;
  connections = all;
  payloads = all;
}
  where
    all : {name : GoString} → Allows everywhere everywhere name i
    all = record { when_live = λ _. refl; when_pruning = λ _. refl }

-- A managed collection, if `may`.
abbrev pub managed_if : Bool → GoString → Bool
managed_if may name = may && contains name managed

pub managed-AllowsAll :
    (upsert delete : Bool) (i : GrowthbookInstance)
    → (is_live i.object ≡ true → upsert ≡ true)
    → (i.spec.prune ≡ true → delete ≡ true)
    → AllowsAll (managed_if upsert) (managed_if delete) i
unfolding str text_eq
managed-AllowsAll upsert delete i live pruning = record {
  users = allows (str "users") refl;
  organizations = allows (str "organizations") refl;
  features = allows (str "features") refl;
  connections = allows (str "sdkconnections") refl;
  payloads = allows (str "sdkpayloads") refl;
}
  where
    allows :
        (name : GoString)
        → contains name managed ≡ true
        → Allows (managed_if upsert) (managed_if delete) name i
    allows name e = record {
      when_live = λ h. rw (live h, e) refl;
      when_pruning = λ h. rw (pruning h, e) refl;
    }

-- Whatever Kubernetes and MongoDB reply, `reconcile` with the MongoDB provider inserts and updates
-- documents only if the instance is not being deleted, and deletes documents by ID only if the
-- instance prunes, and only in the collections of users, organizations, features, connections and
-- payloads. It deletes many documents at once only in the collection of payloads, and only if the
-- instance is not being deleted. The instance that it returns, also beside an error, differs
-- from the one given in its status at most.
pub reconcile-Permitted :
    (x : Externals) (i : GrowthbookInstance)
    → Ensures
        (Permitted (managed_if (is_live i.object)) (managed_if i.spec.prune) true)
        (Keeps i)
        (KeepsStop i)
        (reconcile x (mongo_db_provider x) i)
reconcile-Permitted x i =
    reconcile-May (managed_if (is_live i.object)) (managed_if i.spec.prune) true x i
      (managed-AllowsAll (is_live i.object) i.spec.prune i (λ h. h) (λ h. h)) refl
