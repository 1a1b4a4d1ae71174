-- ===== src/Refinement/Connected.antt =====
-- A whole `reconcile` with the MongoDB provider: credentials, connection, documents, disconnect.
use k8sgrowthbook_controller.Prelude.{◌≡◌, refl, ap, ◌∙◌, Option, none, some, [], GoString, str}
use k8sgrowthbook_controller.Prelude.Dict.{lookup}
use k8sgrowthbook_controller.Prelude.{Bool, true}
use k8sgrowthbook_controller.Api.Meta.{SecretReference}
use k8sgrowthbook_controller.Api.Instance.{GrowthbookInstance, GrowthbookInstanceStatus}
use k8sgrowthbook_controller.Effects.{Error, Result, ok, err, Prog, ret, Secret, wrapped, ◌>>=◌}
use k8sgrowthbook_controller.Effects.{get_secret as get_secret_call, failing_as, from_result, done}
use k8sgrowthbook_controller.Effects.{
  Call, call, MongoClient, Database, mongo_connect, mongo_disconnect,
}
use k8sgrowthbook_controller.Effects.{deferring, always}
use k8sgrowthbook_controller.Effects.Runs.{Handler, run, run-call, run-then, run-failing_as}
use k8sgrowthbook_controller.Effects.Runs.{run-deferring, returned, Outcome}
use k8sgrowthbook_controller.Effects.Traces.{Ensures}
use k8sgrowthbook_controller.Storage.{disconnect, new}
use k8sgrowthbook_controller.Controller.Externals.{Externals, Stop}
use k8sgrowthbook_controller.Controller.Provider.{mongo_db_provider, credential, trim_slashes}
use k8sgrowthbook_controller.Controller.Resources.{stopping}
use k8sgrowthbook_controller.Controller.Secrets.{
  get_username_password, get_secret, field_or, or_fail,
}
use k8sgrowthbook_controller.Controller.Reconciler.{
  reconcile, reconcile_connected, root_credentials,
}
use k8sgrowthbook_controller.Safety.Permissions.{Permitted}
use k8sgrowthbook_controller.Refinement.Registration.{with_status}
use k8sgrowthbook_controller.Refinement.Frames.{run-Spares}
use k8sgrowthbook_controller.Refinement.World.{Contents, IsWorld}
use k8sgrowthbook_controller.Refinement.Convergence.{Estate, IsSame, Converges, EndsConverged}
use k8sgrowthbook_controller.Refinement.Convergence.{
  Converges-from, Converges-to, reconcile_connected-Converges,
}

-- In the namespace of the instance the cluster keeps the secret of the database, if one is named, with
-- this user name and this password in it. There are neither if none is named.
abbrev pub RootCredentials :
    {S : Type 0}
    → Handler S
    → GrowthbookInstance
    → Option SecretReference
    → GoString
    → GoString
    → Type 0
RootCredentials h i none username password = (username ≡ []) × (password ≡ [])
RootCredentials {S} h i (some ref) username password =
    (secret : Secret) × ((s : S)
      → h (get_secret_call (record { namespace = i.object.object_meta.namespace; name = ref.name }))
          s
        ≡ (ok secret, s))
    × (lookup ref.user_field secret.values ≡ some username)
    × (lookup ref.password_field secret.values ≡ some password)

-- MongoDB can be connected to at the instance's URI with the credentials of the instance; the URI
-- can be parsed.
pub record IsReachable {S : Type 0} (x : Externals) (h : Handler S) (i : GrowthbookInstance)
    : Type 0 where
  pub username : GoString
  pub password : GoString
  pub client : MongoClient
  pub path : GoString
  pub credentials : RootCredentials h i i.spec.mongo_db.secret username password
  pub connects :
      (s : S)
      → (h (mongo_connect i.spec.mongo_db.uri (credential username password)) s).0 ≡ ok client
  pub parses : x.parse_url_path i.spec.mongo_db.uri ≡ ok path

-- The database that `MongoDBProvider` chooses.
abbrev pub database_of :
    {S : Type 0} {x : Externals} {h : Handler S} {i : GrowthbookInstance}
    → IsReachable x h i
    → Database
database_of r = new r.client (trim_slashes r.path)

module _ {S : Type 0} (x : Externals) {h : Handler S} {c : Contents S} {db : Database}
    (world : IsWorld x db h c) where
  -- A program that writes no document.
  pub run-IsSame :
      {E A : Type 0} {Q : A → Type 0} {R : E → Type 0} (m : Prog E A)
      → ((upsert delete : GoString → Bool) → Ensures (Permitted upsert delete true) Q R m)
      → (s : S) → IsSame c s (run h m s).1
  run-IsSame m e s = record {
    users = λ j. run-Spares world.users_apart m s j (e _ _);
    organizations = λ j. run-Spares world.organizations_apart m s j (e _ _);
    features = λ j. run-Spares world.features_apart m s j (e _ _);
    connections = λ j. run-Spares world.connections_apart m s j (e _ _);
  }

  -- A call that writes no document.
  pub call-IsSame :
      (k : Call)
      → ((upsert delete : GoString → Bool) → Permitted upsert delete true k)
      → (s : S) → IsSame c s (h k s).1
  call-IsSame k e s = record {
    users = λ j. world.users_apart.keeps k j s (e _ _);
    organizations = λ j. world.organizations_apart.keeps k j s (e _ _);
    features = λ j. world.features_apart.keeps k j s (e _ _);
    connections = λ j. world.connections_apart.keeps k j s (e _ _);
  }

module _ {S : Type 0} (x : Externals) (h : Handler S) (c : Contents S) (i : GrowthbookInstance)
    (reachable : IsReachable x h i) (world : IsWorld x (database_of reachable) h c)
    (estate : Estate x h i) (from : GrowthbookInstanceStatus) where
  run-credentials :
      (ref : Option SecretReference) (username password : GoString) (s : S)
      → RootCredentials h i ref username password
      → run h (root_credentials (with_status i from) ref) s ≡ (returned (username, password), s)
  unfolding get_username_password get_secret field_or or_fail failing_as from_result ◌>>=◌
  run-credentials none username password s (e, f) = rw (e, f) refl
  run-credentials (some ref) username password s (secret, held, e, f) =
      run-call h
        (get_secret_call (record { namespace = i.object.object_meta.namespace; name = ref.name }))
        (λ r.
          failing_as (wrapped (str "referencing secret was not found")) (from_result r)
          >>= λ secret.
              field_or (str "defined username field not found in secret") secret ref.user_field
              >>= λ user.
                  field_or (str "defined password field not found in secret") secret
                    ref.password_field
                  >>= λ pw. ret (user, pw))
        s s (ok secret) (held s)
      ∙ rw (e, f) refl

  abbrev connection : Call
  connection = mongo_connect i.spec.mongo_db.uri (credential reachable.username reachable.password)

  run-connection :
      (s : S)
      → run h (call connection from_result) s ≡ (returned reachable.client, (h connection s).1)
  unfolding from_result
  run-connection s = ap (λ r. run h (from_result r) (h connection s).1) (reachable.connects s)

  run-provider :
      (s : S)
      → run h (mongo_db_provider x (with_status i from) reachable.username reachable.password) s
        ≡ (returned (reachable.client, database_of reachable), (h connection s).1)
  unfolding mongo_db_provider from_result ◌>>=◌
  run-provider s =
      run-then h
        (failing_as (wrapped (str "failed connecting to mongodb")) (call connection from_result)) _
        s (h connection s).1 reachable.client
        (run-failing_as h _ (call connection from_result) s _ reachable.client (run-connection s))
      ∙ rw reachable.parses refl

  abbrev after_disconnect : GrowthbookInstance → Result Error Unit → Prog Stop GrowthbookInstance
  after_disconnect i' r = always (done r) (ret i')

  run-disconnecting :
      (i' : GrowthbookInstance) (r : Result Error Unit) (s : S)
      → run h (after_disconnect i' r) s ≡ (returned i', s)
  unfolding always done
  run-disconnecting i' (ok u) s = refl
  run-disconnecting i' (err e) s = refl

  abbrev working : S → Outcome Stop GrowthbookInstance × S
  working s = run h (reconcile_connected x (database_of reachable) (with_status i from)) s

  run-reconcile :
      (s : S)
      → let t = (h connection s).1 in
        run h (reconcile x (mongo_db_provider x) (with_status i from)) s
        ≡ run h
            (deferring
              (disconnect reachable.client)
              (reconcile_connected x (database_of reachable) (with_status i from)))
            t
  unfolding reconcile
  run-reconcile s =
      run-then h
        (stopping (with_status i from)
          (root_credentials (with_status i from) i.spec.mongo_db.secret))
        _ s s (reachable.username, reachable.password)
        (run-failing_as h _ (root_credentials (with_status i from) i.spec.mongo_db.secret) s s _ (
          run-credentials i.spec.mongo_db.secret reachable.username reachable.password s
            reachable.credentials))
      ∙ run-then h
          (stopping (with_status i from)
            (mongo_db_provider x (with_status i from) reachable.username reachable.password))
          _ s (h connection s).1 (reachable.client, database_of reachable)
          (run-failing_as h _
            (mongo_db_provider x (with_status i from) reachable.username reachable.password) s _ _
            (run-provider s))

  run-closing :
      (i' : GrowthbookInstance) (s t : S)
      → working s ≡ (returned i', t)
      → run h
          (deferring
            (disconnect reachable.client)
            (reconcile_connected x (database_of reachable) (with_status i from)))
          s
        ≡ (returned i', (h (mongo_disconnect reachable.client) t).1)
  unfolding disconnect always
  run-closing i' s t e =
      run-deferring h (disconnect reachable.client)
        (reconcile_connected x (database_of reachable) (with_status i from)) s t i' e
      ∙ run-disconnecting i' (h (mongo_disconnect reachable.client) t).0 _

  -- In such a world, if MongoDB can be reached with the credentials of the instance, `reconcile`
  -- succeeds, returns the instance with at most another status, and makes the same of the documents.
  pub reconcile-Converges :
      (s : S)
      → (status : GrowthbookInstanceStatus) × (t : S) × (run h
            (reconcile x (mongo_db_provider x) (with_status i from))
            s
          ≡ (returned (with_status i status), t))
        × Converges x h c i estate s t
  reconcile-Converges s =
      let s1 = (h connection s).1 in
      let o = working s1 in
      let r : EndsConverged x (database_of reachable) h c world i estate from s1 o =
        reconcile_connected-Converges x (database_of reachable) h c world i estate from s1 in
      let t = (h (mongo_disconnect reachable.client) o.1).1 in
      (
        r.status,
        t,
        run-reconcile s
            ∙ run-closing (with_status i r.status) s1 o.1
                (ap (λ (q : Outcome Stop GrowthbookInstance). (q, o.1)) r.ends),
        Converges-to x h c i estate s o.1 t
            (call-IsSame x world (mongo_disconnect reachable.client) (λ _ _. refl) o.1)
            (Converges-from x h c i estate s s1 o.1 (call-IsSame x world connection (λ _ _. refl) s)
              r.converges),
      )
