-- ===== src/Safety/Handlers.antt =====
-- The calls of the four handlers, and the instance that they return.
use k8sgrowthbook_controller.Prelude.{
  Bool, true, false, ◌≡◌, refl, sym, ap, ◌∙◌, arith, GoString, str, List, [], ◌∷◌,
}
use k8sgrowthbook_controller.Prelude.{if◌then◌else◌}
use k8sgrowthbook_controller.Api.Meta.{is_live}
use k8sgrowthbook_controller.Api.Organization.{GrowthbookOrganization}
use k8sgrowthbook_controller.Api.Instance.{GrowthbookInstance, GrowthbookInstanceSpec}
use k8sgrowthbook_controller.Effects.{Error, Prog, ret, call, ◌>>=◌, from_result, Call, Database}
use k8sgrowthbook_controller.Effects.Traces.{Always, Ensures, AllCalls, Ensures-ret, Ensures-bind}
use k8sgrowthbook_controller.Effects.Traces.{Ensures-failing_as, Ensures-if}
use k8sgrowthbook_controller.Effects.Traces.{Ensures-weaken, trace_rules}
use k8sgrowthbook_controller.Controller.Externals.{Externals, Stop}
use k8sgrowthbook_controller.Controller.Catalog.{Resource, update_resource_catalog, object_of}
use k8sgrowthbook_controller.Controller.Resources.{stopping, register, register_live, for_each}
use k8sgrowthbook_controller.Controller.Objects.{add_finalizer}
use k8sgrowthbook_controller.Controller.Users.{reconcile_users, reconcile_user}
use k8sgrowthbook_controller.Controller.Organizations.{
  reconcile_organizations, reconcile_organization,
}
use k8sgrowthbook_controller.Controller.Features.{reconcile_features, reconcile_feature}
use k8sgrowthbook_controller.Controller.Clients.{reconcile_clients, reconcile_client}
use k8sgrowthbook_controller.Controller.Reconciler.{while_doing}
use k8sgrowthbook_controller.Safety.Permissions.{Permitted}
use k8sgrowthbook_controller.Safety.Resources.{Allows, add_finalizer-Permitted}
use k8sgrowthbook_controller.Safety.Resources.{selector_of-Permitted, combined_selector-Permitted}
use k8sgrowthbook_controller.Safety.Resources.{for_each-Permitted}
use k8sgrowthbook_controller.Safety.Resources.{reconcile_user-Permitted, reconcile_client-Permitted}
use k8sgrowthbook_controller.Safety.Resources.{reconcile_feature-Permitted}
use k8sgrowthbook_controller.Safety.Resources.{reconcile_organization-Permitted}

-- `j` is `i` but for the status.
pub record Keeps (i j : GrowthbookInstance) : Type 0 where
  pub object : j.object ≡ i.object
  pub spec : j.spec ≡ i.spec

-- So for the instance that comes with an error.
abbrev pub KeepsStop : GrowthbookInstance → Stop → Type 0
KeepsStop i s = Keeps i s.0

pub Keeps-refl : (i : GrowthbookInstance) → Keeps i i
Keeps-refl i = record { object = refl; spec = refl }

pub Keeps-trans : {i j k : GrowthbookInstance} → Keeps i j → Keeps j k → Keeps i k
Keeps-trans p q = record { object = q.object ∙ p.object; spec = q.spec ∙ p.spec }

catalog-Keeps :
    (i j : GrowthbookInstance) (r : Resource) (b : Bool)
    → Keeps i j
    → Keeps i (if b then update_resource_catalog j r else j)
unfolding update_resource_catalog
catalog-Keeps i j r true h = record { object = ground arith; spec = ground arith }
catalog-Keeps i j r false h = h

module _ (upsert delete : GoString → Bool) (connect : Bool) where
  abbrev pub May : Call → Type 0
  May = Permitted upsert delete connect

  -- The claim that is carried through the handlers.
  abbrev pub Reconciles : GrowthbookInstance → Prog Stop GrowthbookInstance → Type 0
  Reconciles i m = Ensures May (Keeps i) (KeepsStop i) m

  pub Allows-Keeps :
      {name : GoString} {i j : GrowthbookInstance}
      → Allows upsert delete name i
      → Keeps i j
      → Allows upsert delete name j
  Allows-Keeps a k = record {
    when_live = λ h. a.when_live (ap is_live (sym k.object) ∙ h);
    when_pruning =
        λ h. a.when_pruning (ap (λ (s : GrowthbookInstanceSpec). s.prune) (sym k.spec) ∙ h);
  }

  stopping-May :
      {A : Type 0} (i j : GrowthbookInstance) (m : Prog Error A)
      → Keeps i j
      → AllCalls May m
      → Ensures May Always (KeepsStop i) (stopping j m)
  stopping-May i j m k h = Ensures-failing_as Always (λ e. (j, e)) m h (λ e _. k)

  pub while_doing-May :
      {A : Type 0} (i : GrowthbookInstance) (Q : A → Type 0) (prefix : GoString) (m : Prog Stop A)
      → Ensures May Q (KeepsStop i) m
      → Ensures May Q (KeepsStop i) (while_doing prefix m)
  while_doing-May i Q prefix m h = Ensures-failing_as (KeepsStop i) _ m h (λ e k. k)

  pub from-Keeps :
      {i j : GrowthbookInstance} (m : Prog Stop GrowthbookInstance)
      → Keeps i j
      → Reconciles j m
      → Reconciles i m
  from-Keeps {i} {j} m k h =
      Ensures-weaken (Keeps j) (KeepsStop j) m h (λ a q. Keeps-trans k q) (λ e q. Keeps-trans k q)

  module _ (x : Externals) where
    register-May :
        (name : GoString) (rs : List Resource) (i j : GrowthbookInstance)
        → Keeps i j
        → Reconciles i (register x name rs j)
    unfolding register
    register-May name [] i j k = Ensures-ret j k
    register-May name (r ∷ rs) i j k =
        Ensures-bind Always (stopping j (add_finalizer x name (object_of r))) _
          (stopping-May i j _ k
            (add_finalizer-Permitted x upsert delete connect name (object_of r)))
          λ _ _. register-May name rs i _ (catalog-Keeps i j r _ k)

    register_live-May :
        (rs : List Resource) (i : GrowthbookInstance) → Reconciles i (register_live x rs i)
    unfolding register_live
    register_live-May rs i =
        Ensures-if (is_live i.object) _ (ret i) (λ _. register-May _ rs i i (Keeps-refl i))
          (λ _. Ensures-ret i (Keeps-refl i))

    -- The two loops of a handler, after its list.
    loops-May :
        {A B : Type 0} (Q : B → Type 0) (i : GrowthbookInstance) (rs : List Resource)
        (body : GrowthbookInstance → A → Prog Error Unit) (items : List A)
        (out : GrowthbookInstance → B)
        → ((j : GrowthbookInstance) → Keeps i j → (a : A) → AllCalls May (body j a))
        → ((j : GrowthbookInstance) → Keeps i j → Q (out j))
        → Ensures May Q (KeepsStop i) (
            register_live x rs i >>= λ j. stopping j (for_each (body j) items) >>= λ _. ret (out j))
    loops-May Q i rs body items out hb hq =
        Ensures-bind (Keeps i) (register_live x rs i) _ (register_live-May rs i) λ j k.
          Ensures-bind Always (stopping j (for_each (body j) items)) _
            (stopping-May i j _ k
              (for_each-Permitted x upsert delete connect (body j) items (hb j k)))
            λ _ _. Ensures-ret (out j) (hq j k)

    -- The selector and the list, which fail with the instance as it is.
    pub asking-May :
        {A B : Type 0} (Q : B → Type 0) (i : GrowthbookInstance) (m : Prog Error A)
        (f : A → Prog Stop B)
        → AllCalls May m
        → ((a : A) → Ensures May Q (KeepsStop i) (f a))
        → Ensures May Q (KeepsStop i) (stopping i m >>= f)
    asking-May Q i m f hm hf =
        Ensures-bind Always (stopping i m) f (stopping-May i i m (Keeps-refl i) hm) (λ a _. hf a)

    module _ (db : Database) (i : GrowthbookInstance) where
      pub reconcile_users-May :
          Allows upsert delete (str "users") i → Reconciles i (reconcile_users x db i)
      unfolding reconcile_users
      reconcile_users-May a =
          asking-May (Keeps i) i _ _ (selector_of-Permitted x upsert delete connect _) λ selector.
            asking-May (Keeps i) i (call _ from_result) _ (search trace_rules) λ users.
              loops-May (Keeps i) i _ (reconcile_user x db) users (λ j. j)
                (λ j k u. reconcile_user-Permitted x db (Allows-Keeps a k) u) (λ j k. k)

      pub reconcile_organizations-May :
          Allows upsert delete (str "organizations") i
          → Ensures May (λ r. Keeps i r.0) (KeepsStop i) (reconcile_organizations x db i)
      unfolding reconcile_organizations
      reconcile_organizations-May a =
          asking-May _ i _ _ (selector_of-Permitted x upsert delete connect _) λ selector.
            asking-May _ i (call _ from_result) _ (search trace_rules) λ orgs.
              loops-May _ i _ (reconcile_organization x db) orgs (λ j. (j, orgs))
                (λ j k o. reconcile_organization-Permitted x db (Allows-Keeps a k) o) (λ j k. k)

      pub reconcile_features-May :
          Allows upsert delete (str "features") i
          → (org : GrowthbookOrganization) → Reconciles i (reconcile_features x db i org)
      unfolding reconcile_features
      reconcile_features-May a org =
          asking-May (Keeps i) i _ _ (combined_selector-Permitted x upsert delete connect i org)
            λ selector.
              asking-May (Keeps i) i (call _ from_result) _ (search trace_rules) λ features.
                loops-May (Keeps i) i _ (λ j. reconcile_feature x db j org) features (λ j. j)
                  (λ j k f. reconcile_feature-Permitted x db (Allows-Keeps a k) org f) (λ j k. k)

      pub reconcile_clients-May :
          Allows upsert delete (str "sdkconnections") i
          → Allows upsert delete (str "sdkpayloads") i
          → (org : GrowthbookOrganization) → Reconciles i (reconcile_clients x db i org)
      unfolding reconcile_clients
      reconcile_clients-May a c org =
          asking-May (Keeps i) i _ _ (combined_selector-Permitted x upsert delete connect i org)
            λ selector.
              asking-May (Keeps i) i (call _ from_result) _ (search trace_rules) λ clients.
                loops-May (Keeps i) i _ (λ j. reconcile_client x db j org) clients (λ j. j)
                  (λ j k t.
                    reconcile_client-Permitted x db (Allows-Keeps a k) (Allows-Keeps c k) org t)
                  (λ j k. k)
