-- ===== src/Refinement/Access.antt =====
-- `reconcileClients` on a shelf of connections and in a cluster.
use k8sgrowthbook_controller.Prelude.{◌≡◌, refl, Bool, true, false, Option, some, List, ◌∙◌}
use k8sgrowthbook_controller.Prelude.{GoString, Bytes, str}
use k8sgrowthbook_controller.Prelude.Dict.{lookup}
use k8sgrowthbook_controller.Api.Meta.{Object, ObjectKey}
use k8sgrowthbook_controller.Api.Organization.{GrowthbookOrganization}
use k8sgrowthbook_controller.Api.Client.{GrowthbookClient, TokenSecretReference, get_id}
use k8sgrowthbook_controller.Api.Instance.{GrowthbookInstance}
use k8sgrowthbook_controller.Documents.SdkConnection.{SdkConnection}
use k8sgrowthbook_controller.Effects.{Error, ok, Database, Selector, list_clients, Secret, wrapped}
use k8sgrowthbook_controller.Effects.{get_secret as get_secret_call, failing_as}
use k8sgrowthbook_controller.Effects.{call, from_result, or_panic, ◌>>=◌}
use k8sgrowthbook_controller.Effects.Runs.{Handler, run, run-call, run-then, returned}
use k8sgrowthbook_controller.Growthbook.SdkConnection.{sdk_connections, from_v1beta1}
use k8sgrowthbook_controller.Growthbook.SdkConnection.{update_sdk_connection, delete_sdk_connection}
use k8sgrowthbook_controller.Controller.Catalog.{client_resource}
use k8sgrowthbook_controller.Controller.Externals.{Externals}
use k8sgrowthbook_controller.Controller.Tokens.{sdk_key}
use k8sgrowthbook_controller.Controller.Secrets.{get_client_token, client_token_from, get_secret}
use k8sgrowthbook_controller.Controller.Secrets.{field_or, or_fail, token_field_name}
use k8sgrowthbook_controller.Controller.Resources.{both_live}
use k8sgrowthbook_controller.Controller.Features.{combined_selector}
use k8sgrowthbook_controller.Controller.Clients.{connection_of, upsert_client, reconcile_client}
use k8sgrowthbook_controller.Controller.Clients.{reconcile_clients}
use k8sgrowthbook_controller.Refinement.Shelf.{IsShelf-IsErasable, IsShelf}
use k8sgrowthbook_controller.Refinement.Connections.{connection_kind, SteadyConnection}
use k8sgrowthbook_controller.Refinement.Connections.{
  update_sdk_connection-SteadyConnection, IsPayloadCache,
}
use k8sgrowthbook_controller.Refinement.Cluster.{IsCluster}
use k8sgrowthbook_controller.Refinement.Registration.{with_status}
use k8sgrowthbook_controller.Refinement.Retirement.{retire-Retired}
use k8sgrowthbook_controller.Refinement.Loops.{Line, AllReady, Changes, Does}
use k8sgrowthbook_controller.Refinement.Handling.{Reconciles, handling-Reconciles}
use k8sgrowthbook_controller.Refinement.Selecting.{run-combined_selector}

-- In the client's namespace the cluster keeps the secret that the client names, with a token in it
-- that is long enough for a key.
pub record HasToken {S : Type 0} (h : Handler S) (client : GrowthbookClient) : Type 0 where
  pub ref : TokenSecretReference
  pub secret : Secret
  pub token : GoString
  pub key : GoString
  pub named_secret : client.spec.token_secret ≡ some ref
  pub held :
      (s : S)
      → h
          (get_secret_call
            (record { namespace = client.object.object_meta.namespace; name = ref.name }))
          s
        ≡ (ok secret, s)
  pub has_token : lookup (token_field_name ref) secret.values ≡ some token
  pub key_of_token : sdk_key token ≡ some key

module _ {S : Type 0} (h : Handler S) (i : GrowthbookInstance) (org : GrowthbookOrganization) where
  -- Clients that are to be written have to have their token.
  abbrev ClientReady : Bool → GrowthbookClient → Type 0
  ClientReady true client = HasToken h client
  ClientReady false client = Unit

  -- The clients of an organization.
  abbrev pub client_line : Line SdkConnection GrowthbookClient
  client_line = record {
    live = λ client. both_live i client.object;
    prune = i.spec.prune;
    id = get_id;
    Ready = ClientReady;
    After = λ client q. SteadyConnection (record (connection_of org client) { key = q.key });
  }

module _ {S : Type 0} (h : Handler S) (client : GrowthbookClient) (q : HasToken h client) where
  run-get_client_token : (s : S) → run h (get_client_token client) s ≡ (returned q.token, s)
  unfolding get_client_token client_token_from get_secret failing_as from_result ◌>>=◌ field_or
      or_fail
  run-get_client_token s = rw q.named_secret (
      run-call h
        (get_secret_call
          (record { namespace = client.object.object_meta.namespace; name = q.ref.name }))
        (λ r.
          failing_as (wrapped (str "referencing secret was not found")) (from_result r)
          >>= λ secret.
              field_or (str "defined token field not found in secret") secret
                (token_field_name q.ref))
        s s (ok q.secret) (q.held s)
      ∙ rw q.has_token refl)

module _ {S : Type 0} (x : Externals) (db : Database) (h : Handler S) (no_documents : Error)
    (encode : SdkConnection → Bytes) (stored : GoString → S → Option SdkConnection)
    (laws : IsShelf h (connection_kind encode) (sdk_connections db) no_documents stored)
    (cache : IsPayloadCache db h stored) (finalizers : ObjectKey → S → List GoString)
    (cluster : (obj : Object) → IsCluster h stored finalizers obj) where
  run-upsert_client :
      (org : GrowthbookOrganization) (client : GrowthbookClient) (q : HasToken h client) (s : S)
      → run h (upsert_client x db org client) s
        ≡ run h (update_sdk_connection (record (connection_of org client) { key = q.key }) db) s
  unfolding upsert_client or_panic ◌>>=◌
  run-upsert_client org client q s =
      run-then h (get_client_token client) _ s s q.token (run-get_client_token h client q s)
      ∙ rw q.key_of_token refl

  one :
      (i : GrowthbookInstance) (org : GrowthbookOrganization) (client : GrowthbookClient)
      (live : Bool) (q : ClientReady h i org live client) (s : S)
      → both_live i client.object ≡ live
      → Does stored
          (Changes (client_line h i org) client live q)
          s
          (run h (reconcile_client x db i org client) s)
  unfolding reconcile_client from_v1beta1 delete_sdk_connection
  one i org client true q s e =
      let l =
        update_sdk_connection-SteadyConnection db h no_documents encode stored laws cache
          (record (connection_of org client) { key = q.key }) s in
      rw (e, run-upsert_client org client q s) (l.ends, (l.outcome, l.holds, l.puts))
  one i org client false q s e =
      let r =
        retire-Retired (IsShelf-IsErasable laws) (cluster client.object) x i (get_id client) s in
      rw e (r.ends, r.documents)

  module _ (i : GrowthbookInstance) (org : GrowthbookOrganization) (selector other : Selector)
      (cs : List GrowthbookClient)
      (selects : x.label_selector_as_selector org.spec.resource_selector ≡ ok selector)
      (valid : x.label_selector_as_selector i.spec.resource_selector ≡ ok other)
      (listed : (s : S) → h (list_clients i.object.object_meta.namespace selector) s ≡ (ok cs, s))
      (ready : AllReady (client_line h i org) cs) where
    -- On a shelf of connections with a cache of payloads that can be cleared, in a cluster that takes
    -- patches, lists `cs` for the selector of the organization and keeps the token of each of them
    -- that is to be written, and with a valid selector of the instance, `reconcileClients` succeeds
    -- and returns the instance with at most another status. The map of connections by their ID
    -- changes one listed client after the other: one that stays, if the instance does too, is put in
    -- as `UpdateSDKConnection` puts in the one described for the organization, with the key of the
    -- token; of any other the document goes if the instance prunes, and nothing changes if not.
    pub reconcile_clients-Reconciles :
        (s : S)
        → Reconciles
            (client_line h i org)
            stored
            i
            (λ j. j)
            cs
            ready
            s
            (run h (reconcile_clients x db i org) s)
    unfolding reconcile_clients from_result
    reconcile_clients-Reconciles =
        handling-Reconciles x h stored finalizers cluster i (client_line h i org) client_resource
          (combined_selector x i org)
          (λ sel. call (list_clients i.object.object_meta.namespace sel) from_result)
          (λ j. reconcile_client x db j org) (λ cs j. j) selector cs
          (run-combined_selector x h i org selector other selects valid)
          (λ s.
            run-call h (list_clients i.object.object_meta.namespace selector) from_result s s
              (ok cs) (listed s))
          (λ status c q s. one (with_status i status) org c (both_live i c.object) q s refl) ready
