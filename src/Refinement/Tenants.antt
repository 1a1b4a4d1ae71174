-- ===== src/Refinement/Tenants.antt =====
-- The organizations of an instance, each with its features and its clients, and what they do to the
-- documents.
use k8sgrowthbook_controller.Prelude.{◌≡◌, ◌∙◌, List, [], ◌∷◌, GoString}
use k8sgrowthbook_controller.Prelude.{text_eq}
use k8sgrowthbook_controller.Api.Organization.{GrowthbookOrganization}
use k8sgrowthbook_controller.Api.Feature.{GrowthbookFeature}
use k8sgrowthbook_controller.Api.Client.{GrowthbookClient}
use k8sgrowthbook_controller.Api.Instance.{GrowthbookInstance}
use k8sgrowthbook_controller.Documents.Feature.{Feature}
use k8sgrowthbook_controller.Documents.SdkConnection.{SdkConnection}
use k8sgrowthbook_controller.Effects.{ok, Selector, list_features, list_clients}
use k8sgrowthbook_controller.Effects.Runs.{Handler}
use k8sgrowthbook_controller.Controller.Externals.{Externals}
use k8sgrowthbook_controller.Refinement.Loops.{Documents, AllReady, AllChange}
use k8sgrowthbook_controller.Refinement.Loops.{AllChange-from}
use k8sgrowthbook_controller.Refinement.Rollout.{feature_line}
use k8sgrowthbook_controller.Refinement.Access.{client_line}

-- What the cluster lists for the selector of an organization, and that it is ready.
pub record Tenant {S : Type 0} (x : Externals) (h : Handler S) (i : GrowthbookInstance)
    (org : GrowthbookOrganization) : Type 0 where
  pub selector : Selector
  pub features : List GrowthbookFeature
  pub clients : List GrowthbookClient
  pub selects : x.label_selector_as_selector org.spec.resource_selector ≡ ok selector
  pub features_listed :
      (s : S) → h (list_features i.object.object_meta.namespace selector) s ≡ (ok features, s)
  pub clients_listed :
      (s : S) → h (list_clients i.object.object_meta.namespace selector) s ≡ (ok clients, s)
  pub features_ready : AllReady (feature_line x i org) features
  pub clients_ready : AllReady (client_line h i org) clients

module _ {S : Type 0} (x : Externals) (h : Handler S) (i : GrowthbookInstance) where
  abbrev pub Tenants : List GrowthbookOrganization → Type 0
  Tenants [] = Unit
  Tenants (org ∷ orgs) = Tenant x h i org × Tenants orgs

  -- The features of one organization after the other.
  abbrev pub FeaturesChange :
      (orgs : List GrowthbookOrganization)
      → Tenants orgs
      → Documents Feature
      → Documents Feature
      → Type 0
  FeaturesChange [] ts m n = (j : GoString) → n j ≡ m j
  FeaturesChange (org ∷ orgs) (t, ts) m n =
      (l : Documents Feature) × AllChange (feature_line x i org) t.features t.features_ready m l
      × FeaturesChange orgs ts l n

  -- The connections of one organization after the other.
  abbrev pub ConnectionsChange :
      (orgs : List GrowthbookOrganization)
      → Tenants orgs
      → Documents SdkConnection
      → Documents SdkConnection
      → Type 0
  ConnectionsChange [] ts m n = (j : GoString) → n j ≡ m j
  ConnectionsChange (org ∷ orgs) (t, ts) m n =
      (l : Documents SdkConnection) × AllChange (client_line h i org) t.clients t.clients_ready m l
      × ConnectionsChange orgs ts l n

  pub FeaturesChange-from :
      (orgs : List GrowthbookOrganization) (ts : Tenants orgs) (l m n : Documents Feature)
      → ((j : GoString) → l j ≡ m j)
      → FeaturesChange orgs ts l n
      → FeaturesChange orgs ts m n
  FeaturesChange-from [] ts l m n e p = λ j. p j ∙ e j
  FeaturesChange-from (org ∷ orgs) (t, ts) l m n e (k, p, ps) =
      (k, AllChange-from (feature_line x i org) t.features t.features_ready l m k e p, ps)

  pub FeaturesChange-to :
      (orgs : List GrowthbookOrganization) (ts : Tenants orgs) (l m n : Documents Feature)
      → ((j : GoString) → n j ≡ m j)
      → FeaturesChange orgs ts l m
      → FeaturesChange orgs ts l n
  FeaturesChange-to [] ts l m n e p = λ j. e j ∙ p j
  FeaturesChange-to (org ∷ orgs) (t, ts) l m n e (k, p, ps) =
      (k, p, FeaturesChange-to orgs ts k m n e ps)

  pub ConnectionsChange-from :
      (orgs : List GrowthbookOrganization) (ts : Tenants orgs) (l m n : Documents SdkConnection)
      → ((j : GoString) → l j ≡ m j)
      → ConnectionsChange orgs ts l n
      → ConnectionsChange orgs ts m n
  ConnectionsChange-from [] ts l m n e p = λ j. p j ∙ e j
  ConnectionsChange-from (org ∷ orgs) (t, ts) l m n e (k, p, ps) =
      (k, AllChange-from (client_line h i org) t.clients t.clients_ready l m k e p, ps)

  pub ConnectionsChange-to :
      (orgs : List GrowthbookOrganization) (ts : Tenants orgs) (l m n : Documents SdkConnection)
      → ((j : GoString) → n j ≡ m j)
      → ConnectionsChange orgs ts l m
      → ConnectionsChange orgs ts l n
  ConnectionsChange-to [] ts l m n e p = λ j. e j ∙ p j
  ConnectionsChange-to (org ∷ orgs) (t, ts) l m n e (k, p, ps) =
      (k, p, ConnectionsChange-to orgs ts k m n e ps)
