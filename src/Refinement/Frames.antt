-- ===== src/Refinement/Frames.antt =====
-- What a handler leaves alone: the documents of the collections that it does not write in.
use k8sgrowthbook_controller.Prelude.{Bool, true, not, ◌≡◌, refl, ◌∙◌, GoString, str, Option}
use k8sgrowthbook_controller.Prelude.{◌==◌, text_eq}
use k8sgrowthbook_controller.Api.Organization.{GrowthbookOrganization}
use k8sgrowthbook_controller.Api.Instance.{GrowthbookInstance}
use k8sgrowthbook_controller.Effects.{Call, Database, Prog}
use k8sgrowthbook_controller.Effects.Runs.{Handler, run}
use k8sgrowthbook_controller.Effects.Traces.{Ensures, Holds}
use k8sgrowthbook_controller.Effects.{ret, fail, panicked, call}
use k8sgrowthbook_controller.Controller.Externals.{Externals}
use k8sgrowthbook_controller.Controller.Users.{reconcile_users}
use k8sgrowthbook_controller.Controller.Organizations.{reconcile_organizations}
use k8sgrowthbook_controller.Controller.Features.{reconcile_features}
use k8sgrowthbook_controller.Controller.Clients.{reconcile_clients}
use k8sgrowthbook_controller.Safety.Permissions.{Permitted}
use k8sgrowthbook_controller.Safety.Resources.{Allows}
use k8sgrowthbook_controller.Safety.Handlers.{reconcile_users-May, reconcile_organizations-May}
use k8sgrowthbook_controller.Safety.Handlers.{reconcile_features-May, reconcile_clients-May}

-- The collections of other names.
abbrev pub elsewhere : GoString → GoString → Bool
elsewhere name other = not (other == name)

-- A call that writes in other collections at most.
abbrev pub Spares : GoString → Call → Type 0
Spares name = Permitted (elsewhere name) (elsewhere name) true

-- What the collection of that name holds, only a write in it changes.
pub record IsApart {A S : Type 0} (h : Handler S) (name : GoString)
    (stored : GoString → S → Option A) : Type 0 where
  pub keeps : (c : Call) (id : GoString) (s : S) → Spares name c → stored id (h c s).1 ≡ stored id s

module _ {A S : Type 0} {h : Handler S} {name : GoString} {stored : GoString → S → Option A}
    (apart : IsApart h name stored) where
  run-Holds :
      {E B : Type 0} (Q : B → Type 0) (R : E → Type 0) (m : Prog E B) (s : S) (j : GoString)
      → Holds (Spares name) Q R m
      → stored j (run h m s).1 ≡ stored j s
  run-Holds Q R (ret a) s j p = refl
  run-Holds Q R (fail e) s j p = refl
  run-Holds Q R panicked s j p = refl
  run-Holds Q R (call c k) s j (p, q) =
      let (r, t) = h c s in run-Holds Q R (k r) t j (q r) ∙ apart.keeps c j s p

  -- A program that writes elsewhere at most leaves the documents alone.
  pub run-Spares :
      {E B : Type 0} {Q : B → Type 0} {R : E → Type 0} (m : Prog E B) (s : S) (j : GoString)
      → Ensures (Spares name) Q R m
      → stored j (run h m s).1 ≡ stored j s
  run-Spares m s j e = run-Holds _ _ m s j e.at

  elsewhere-Allows :
      {other : GoString} {i : GrowthbookInstance}
      → elsewhere name other ≡ true
      → Allows (elsewhere name) (elsewhere name) other i
  elsewhere-Allows e = record { when_live = λ _. e; when_pruning = λ _. e }

  module _ (x : Externals) (db : Database) (i : GrowthbookInstance) where
    pub reconcile_users_spares :
        elsewhere name (str "users") ≡ true
        → (s : S) (j : GoString) → stored j (run h (reconcile_users x db i) s).1 ≡ stored j s
    reconcile_users_spares e s j =
        run-Spares (reconcile_users x db i) s j
          (reconcile_users-May (elsewhere name) (elsewhere name) true x db i (elsewhere-Allows e))

    pub reconcile_organizations_spares :
        elsewhere name (str "organizations") ≡ true
        → (s : S) (j : GoString)
        → stored j (run h (reconcile_organizations x db i) s).1 ≡ stored j s
    reconcile_organizations_spares e s j = run-Spares (reconcile_organizations x db i) s j (
        reconcile_organizations-May (elsewhere name) (elsewhere name) true x db i
          (elsewhere-Allows e))

    pub reconcile_features_spares :
        elsewhere name (str "features") ≡ true
        → (org : GrowthbookOrganization) (s : S) (j : GoString)
        → stored j (run h (reconcile_features x db i org) s).1 ≡ stored j s
    reconcile_features_spares e org s j = run-Spares (reconcile_features x db i org) s j (
        reconcile_features-May (elsewhere name) (elsewhere name) true x db i (elsewhere-Allows e)
          org)

    pub reconcile_clients_spares :
        elsewhere name (str "sdkconnections") ≡ true
        → elsewhere name (str "sdkpayloads") ≡ true
        → (org : GrowthbookOrganization) (s : S) (j : GoString)
        → stored j (run h (reconcile_clients x db i org) s).1 ≡ stored j s
    reconcile_clients_spares e f org s j = run-Spares (reconcile_clients x db i org) s j (
        reconcile_clients-May (elsewhere name) (elsewhere name) true x db i (elsewhere-Allows e)
          (elsewhere-Allows f) org)
