-- ===== src/Safety/Resources.antt =====
-- Which writes the body of each handler's second loop makes, for one resource.
use k8sgrowthbook_controller.Prelude.{Bool, true, ◌≡◌, arith, GoString, List, [], ◌∷◌, Option}
use k8sgrowthbook_controller.Prelude.{none, some, str}
use k8sgrowthbook_controller.Api.Meta.{Object, ObjectKey, SecretReference, LabelSelector, is_live}
use k8sgrowthbook_controller.Api.User.{GrowthbookUser}
use k8sgrowthbook_controller.Api.Organization.{GrowthbookOrganization, GrowthbookOrganizationUser}
use k8sgrowthbook_controller.Api.Feature.{GrowthbookFeature}
use k8sgrowthbook_controller.Api.Client.{GrowthbookClient, TokenSecretReference}
use k8sgrowthbook_controller.Api.Instance.{GrowthbookInstance}
use k8sgrowthbook_controller.Documents.Organization.{Organization}
use k8sgrowthbook_controller.Effects.{Error, Prog, Database, Secret}
use k8sgrowthbook_controller.Effects.Traces.{AllCalls, AllCalls-bind, trace_rules}
use k8sgrowthbook_controller.Controller.Externals.{Externals}
use k8sgrowthbook_controller.Controller.Objects.{patch, add_finalizer, remove_finalizer}
use k8sgrowthbook_controller.Controller.Secrets.{get_secret, or_fail, field_or, get_client_token}
use k8sgrowthbook_controller.Controller.Secrets.{client_token_from, get_username_password}
use k8sgrowthbook_controller.Controller.Secrets.{get_optional_username_password}
use k8sgrowthbook_controller.Controller.Resources.{both_live, retire, for_each, selector_of}
use k8sgrowthbook_controller.Controller.Users.{reconcile_user}
use k8sgrowthbook_controller.Controller.Organizations.{add_members, reconcile_organization}
use k8sgrowthbook_controller.Controller.Features.{combined_selector, reconcile_feature}
use k8sgrowthbook_controller.Controller.Clients.{reconcile_client}
use k8sgrowthbook_controller.Safety.Permissions.{Permitted, set_password-Permitted}
use k8sgrowthbook_controller.Safety.Permissions.{update_user-Permitted, delete_user-Permitted}
use k8sgrowthbook_controller.Safety.Permissions.{update_organization-Permitted}
use k8sgrowthbook_controller.Safety.Permissions.{delete_organization-Permitted}
use k8sgrowthbook_controller.Safety.Permissions.{update_feature-Permitted, delete_feature-Permitted}
use k8sgrowthbook_controller.Safety.Permissions.{update_sdk_connection-Permitted}
use k8sgrowthbook_controller.Safety.Permissions.{delete_sdk_connection-Permitted}

both_live-is_live :
    (i : GrowthbookInstance) (obj : Object) → both_live i obj ≡ true → is_live i.object ≡ true
both_live-is_live i obj h = ground arith

module _ (x : Externals) (upsert delete : GoString → Bool) (connect : Bool) where
  pub patch-Permitted : (obj : Object) → AllCalls (Permitted upsert delete connect) (patch obj)
  unfolding patch
  patch-Permitted obj = search trace_rules

  pub add_finalizer-Permitted :
      (name : GoString) (obj : Object)
      → AllCalls (Permitted upsert delete connect) (add_finalizer x name obj)
  unfolding add_finalizer
  add_finalizer-Permitted name obj = search (trace_rules, patch-Permitted)

  pub remove_finalizer-Permitted :
      (name : GoString) (obj : Object)
      → AllCalls (Permitted upsert delete connect) (remove_finalizer x name obj)
  unfolding remove_finalizer
  remove_finalizer-Permitted name obj = search (trace_rules, patch-Permitted)

  get_secret-Permitted :
      (key : ObjectKey) → AllCalls (Permitted upsert delete connect) (get_secret key)
  unfolding get_secret
  get_secret-Permitted key = search trace_rules

  or_fail-Permitted :
      (message : GoString) (o : Option GoString)
      → AllCalls (Permitted upsert delete connect) (or_fail message o)
  unfolding or_fail
  or_fail-Permitted message none = search trace_rules
  or_fail-Permitted message (some val) = search trace_rules

  field_or-Permitted :
      (message : GoString) (s : Secret) (field : GoString)
      → AllCalls (Permitted upsert delete connect) (field_or message s field)
  unfolding field_or
  field_or-Permitted message s field = or_fail-Permitted message _

  token_from-Permitted :
      (namespace : GoString) (ref : Option TokenSecretReference)
      → AllCalls (Permitted upsert delete connect) (client_token_from namespace ref)
  unfolding client_token_from
  token_from-Permitted namespace none = search trace_rules
  token_from-Permitted namespace (some ref) =
      search (trace_rules, get_secret-Permitted, field_or-Permitted)

  pub get_username_password-Permitted :
      (i : GrowthbookInstance) (ref : Option SecretReference)
      → AllCalls (Permitted upsert delete connect) (get_username_password i ref)
  unfolding get_username_password
  get_username_password-Permitted i none = search trace_rules
  get_username_password-Permitted i (some ref) =
      search (trace_rules, get_secret-Permitted, field_or-Permitted) depth 10

  optional-Permitted :
      (i : GrowthbookInstance) (ref : Option SecretReference)
      → AllCalls (Permitted upsert delete connect) (get_optional_username_password i ref)
  unfolding get_optional_username_password
  optional-Permitted i none = search trace_rules
  optional-Permitted i (some ref) =
      search (trace_rules, get_secret-Permitted, field_or-Permitted) depth 10

  pub selector_of-Permitted :
      (s : Option LabelSelector) → AllCalls (Permitted upsert delete connect) (selector_of x s)
  unfolding selector_of
  selector_of-Permitted s = search trace_rules

  pub combined_selector-Permitted :
      (i : GrowthbookInstance) (org : GrowthbookOrganization)
      → AllCalls (Permitted upsert delete connect) (combined_selector x i org)
  unfolding combined_selector
  combined_selector-Permitted i org = search (trace_rules, selector_of-Permitted)

  add_members-Permitted :
      (db : Database) (i : GrowthbookInstance) (us : List (Option GrowthbookOrganizationUser))
      (o : Organization)
      → AllCalls (Permitted upsert delete connect) (add_members x db i us o)
  unfolding add_members
  add_members-Permitted db i [] o = search trace_rules
  add_members-Permitted db i (none ∷ us) o = search trace_rules
  add_members-Permitted db i (some u ∷ us) o =
      search (trace_rules, selector_of-Permitted, add_members-Permitted db i us) depth 10

  pub for_each-Permitted :
      {A : Type 0} (body : A → Prog Error Unit) (items : List A)
      → ((a : A) → AllCalls (Permitted upsert delete connect) (body a))
      → AllCalls (Permitted upsert delete connect) (for_each body items)
  unfolding for_each
  for_each-Permitted body [] h = search trace_rules
  for_each-Permitted body (a ∷ items) h =
      AllCalls-bind (body a) (λ _. for_each body items) (h a) λ _. for_each-Permitted body items h

-- In the collection a live instance may upsert, and a pruning one may delete.
pub record Allows (upsert delete : GoString → Bool) (name : GoString) (i : GrowthbookInstance)
    : Type 0 where
  pub when_live : is_live i.object ≡ true → upsert name ≡ true
  pub when_pruning : i.spec.prune ≡ true → delete name ≡ true

live :
    {upsert delete : GoString → Bool} {name : GoString} {i : GrowthbookInstance}
    → Allows upsert delete name i
    → (obj : Object) → both_live i obj ≡ true
    → upsert name ≡ true
live {i = i} allows obj h = allows.when_live (both_live-is_live i obj h)

module _ (x : Externals) (db : Database) {upsert delete : GoString → Bool} {connect : Bool}
    {i : GrowthbookInstance} where
  retire-Permitted :
      {name : GoString} (allows : Allows upsert delete name i) (obj : Object)
      (remove : Prog Error Unit)
      → (delete name ≡ true → AllCalls (Permitted upsert delete connect) remove)
      → AllCalls (Permitted upsert delete connect) (retire x i obj remove)
  unfolding retire
  retire-Permitted allows obj remove h =
      search (trace_rules, h, allows.when_pruning, remove_finalizer-Permitted) depth 8

  pub reconcile_user-Permitted :
      (allows : Allows upsert delete (str "users") i) (u : GrowthbookUser)
      → AllCalls (Permitted upsert delete connect) (reconcile_user x db i u)
  unfolding reconcile_user
  reconcile_user-Permitted allows u =
      search
        (
          trace_rules,
          live allows,
          optional-Permitted,
          set_password-Permitted,
          update_user-Permitted,
          retire-Permitted allows,
          delete_user-Permitted,
        )
        depth 12

  pub reconcile_organization-Permitted :
      (allows : Allows upsert delete (str "organizations") i) (org : GrowthbookOrganization)
      → AllCalls (Permitted upsert delete connect) (reconcile_organization x db i org)
  unfolding reconcile_organization
  reconcile_organization-Permitted allows org =
      search
        (
          trace_rules,
          live allows,
          add_members-Permitted,
          update_organization-Permitted,
          retire-Permitted allows,
          delete_organization-Permitted,
        )
        depth 12

  pub reconcile_feature-Permitted :
      (allows : Allows upsert delete (str "features") i) (org : GrowthbookOrganization)
      (f : GrowthbookFeature)
      → AllCalls (Permitted upsert delete connect) (reconcile_feature x db i org f)
  unfolding reconcile_feature
  reconcile_feature-Permitted allows org f =
      search
        (
          trace_rules,
          live allows,
          update_feature-Permitted,
          retire-Permitted allows,
          delete_feature-Permitted,
        )
        depth 12

  pub reconcile_client-Permitted :
      (allows : Allows upsert delete (str "sdkconnections") i)
      (clears : Allows upsert delete (str "sdkpayloads") i) (org : GrowthbookOrganization)
      (c : GrowthbookClient)
      → AllCalls (Permitted upsert delete connect) (reconcile_client x db i org c)
  unfolding reconcile_client get_client_token
  reconcile_client-Permitted allows clears org c =
      search
        (
          trace_rules,
          live allows,
          live clears,
          token_from-Permitted,
          update_sdk_connection-Permitted,
          retire-Permitted allows,
          delete_sdk_connection-Permitted,
        )
        depth 12
