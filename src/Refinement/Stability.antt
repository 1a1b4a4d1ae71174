-- ===== src/Refinement/Stability.antt =====
-- A second `reconcile` adds nothing to the documents of users, organizations and connections. A
-- feature may be written again with a new date, since its BSON may come in another order.
use k8sgrowthbook_controller.Prelude.{◌≡◌, refl, Bool, true, false, ◌||◌, List, [], ◌∷◌, GoString}
use k8sgrowthbook_controller.Api.Organization.{GrowthbookOrganization}
use k8sgrowthbook_controller.Api.Instance.{GrowthbookInstance}
use k8sgrowthbook_controller.Controller.Externals.{Externals}
use k8sgrowthbook_controller.Controller.Secrets.{field_or_empty}
use k8sgrowthbook_controller.Controller.Clients.{connection_of}
use k8sgrowthbook_controller.Growthbook
use k8sgrowthbook_controller.Effects.Runs.{Handler}
use k8sgrowthbook_controller.Refinement.Provisioning.{AfterUser-again}
use k8sgrowthbook_controller.Refinement.Organizations.{AfterOrganization-again}
use k8sgrowthbook_controller.Refinement.Connections.{AfterConnection}
use k8sgrowthbook_controller.Refinement.Upsert.{Steadily-again}
use k8sgrowthbook_controller.Refinement.Loops.{AllChange, map_of}
use k8sgrowthbook_controller.Refinement.Population.{user_line}
use k8sgrowthbook_controller.Refinement.Membership.{organization_line, organization_of}
use k8sgrowthbook_controller.Refinement.Access.{client_line}
use k8sgrowthbook_controller.Refinement.Steps.{
  IsStep, IsSteady, Same-IsStep, Then-IsStep, AllChange-IsStep, owns, Distinct,
}
use k8sgrowthbook_controller.Refinement.World.{Contents}
use k8sgrowthbook_controller.Refinement.Tenants.{Tenants, ConnectionsChange}
use k8sgrowthbook_controller.Refinement.Convergence.{Estate, Converges}

-- The users, organizations and connections are as before.
pub record IsStable {S : Type 0} (c : Contents S) (s t : S) : Type 0 where
  pub users : (j : GoString) → c.user_of j t ≡ c.user_of j s
  pub organizations : (j : GoString) → c.organization_of j t ≡ c.organization_of j s
  pub connections : (j : GoString) → c.connection_of j t ≡ c.connection_of j s

module _ {S : Type 0} (x : Externals) (h : Handler S) (i : GrowthbookInstance) where
  user_line-IsSteady : IsSteady (user_line x h i)
  user_line-IsSteady = record {
    steady =
        λ u q. AfterUser-again x.scrypt_key u (field_or_empty q.secret q.ref.user_field) q.password;
  }

  organization_line-IsSteady : IsSteady (organization_line x h i)
  organization_line-IsSteady = record {
    steady = λ org q. AfterOrganization-again (organization_of org q.0);
  }

  module _ (org : GrowthbookOrganization) where
    client_line-IsSteady : IsSteady (client_line h i org)
    client_line-IsSteady = record {
      steady = λ client q.
          let c = record (connection_of org client) { key = q.key } in
          Steadily-again (λ e. Growthbook.SdkConnection.overlay e c) (AfterConnection c);
    }

  -- The IDs of the clients of the organizations.
  abbrev owns_clients : (orgs : List GrowthbookOrganization) → Tenants x h i orgs → GoString → Bool
  owns_clients [] ts j = false
  owns_clients (org ∷ orgs) (t, ts) j =
      owns (client_line h i org) t.clients j || owns_clients orgs ts j

  -- No two of them have an ID in common.
  abbrev DistinctClients : (orgs : List GrowthbookOrganization) → Tenants x h i orgs → Type 0
  DistinctClients [] ts = Unit
  DistinctClients (org ∷ orgs) (t, ts) =
      Distinct (client_line h i org) t.clients
      × ((j : GoString)
          → owns (client_line h i org) t.clients j ≡ true
          → owns_clients orgs ts j ≡ false)
      × DistinctClients orgs ts

  ConnectionsChange-IsStep :
      (orgs : List GrowthbookOrganization) (ts : Tenants x h i orgs)
      → DistinctClients orgs ts
      → IsStep (owns_clients orgs ts) (ConnectionsChange x h i orgs ts)
  ConnectionsChange-IsStep [] ts d = Same-IsStep
  ConnectionsChange-IsStep (org ∷ orgs) (t, ts) (d, apart, ds) =
      Then-IsStep (owns (client_line h i org) t.clients) (owns_clients orgs ts)
        (AllChange (client_line h i org) t.clients t.clients_ready)
        (ConnectionsChange x h i orgs ts)
        (AllChange-IsStep (client_line h i org) (client_line-IsSteady org) t.clients t.clients_ready
          d)
        (ConnectionsChange-IsStep orgs ts ds) apart

  -- No two users, organizations or clients have an ID in common.
  pub record IsDistinct (estate : Estate x h i) : Type 0 where
    pub users : Distinct (user_line x h i) estate.users
    pub organizations : Distinct (organization_line x h i) estate.organizations
    pub clients : DistinctClients estate.organizations estate.tenants

  -- Documents that have converged converge to themselves.
  pub Converges-again :
      (c : Contents S) (estate : Estate x h i) (s t u : S)
      → IsDistinct estate
      → Converges x h c i estate s t
      → Converges x h c i estate t u
      → IsStable c t u
  Converges-again c estate s t u d p q =
      let org_line = organization_line x h i in
      record {
        users =
            (AllChange-IsStep (user_line x h i) user_line-IsSteady estate.users estate.users_ready
                d.users).again
              (map_of c.user_of s) (map_of c.user_of t) (map_of c.user_of t) (map_of c.user_of u)
              p.users (λ j _. refl) q.users;
        organizations =
            (AllChange-IsStep org_line organization_line-IsSteady estate.organizations
                estate.organizations_ready d.organizations).again
              (map_of c.organization_of s) (map_of c.organization_of t) (map_of c.organization_of t)
              (map_of c.organization_of u) p.organizations (λ j _. refl) q.organizations;
        connections =
            (ConnectionsChange-IsStep estate.organizations estate.tenants d.clients).again
              (map_of c.connection_of s) (map_of c.connection_of t) (map_of c.connection_of t)
              (map_of c.connection_of u) p.connections (λ j _. refl) q.connections;
      }
