-- ===== src/Controller/Watches.antt =====
-- `SetupWithManager`'s index of secrets, `requestsForChangeByField`, `requestsForChangeBySelector`
-- and `matches`: which instances a changed object wakes.
use k8sgrowthbook_controller.Prelude.{
  Bool, true, false, ◌&&◌, ◌||◌, Option, none, some, List, [], ◌∷◌,
}
use k8sgrowthbook_controller.Prelude.{map, ◌++◌, GoString, str, ◌==◌, text_eq, if◌then◌else◌}
use k8sgrowthbook_controller.Prelude.Dict.{Dict}
use k8sgrowthbook_controller.Api.Meta.{Object, ObjectKey, LabelSelector, SecretReference}
use k8sgrowthbook_controller.Api.User.{GrowthbookUser}
use k8sgrowthbook_controller.Api.Client.{GrowthbookClient, TokenSecretReference}
use k8sgrowthbook_controller.Api.Instance.{GrowthbookInstance}
use k8sgrowthbook_controller.Effects.{Error, Result, ok, err, Prog, ret, call, Selector}
use k8sgrowthbook_controller.Effects.{
  list_users, list_clients, list_instances_in, list_instances_by,
}
use k8sgrowthbook_controller.Controller.Externals.{Externals}
use k8sgrowthbook_controller.Controller.Objects.{object_key}

-- The loop over the labels, for one pair of the selector.
unfoldable pub has_label : GoString → GoString → Dict GoString → Bool
has_label k v [] = false
has_label k v ((k_l, v_l) ∷ labels) = (k == k_l && v == v_l) || has_label k v labels

unfoldable pub matches_all : Dict GoString → Dict GoString → Bool
unfolding has_label
matches_all labels [] = true
matches_all labels ((k, v) ∷ wanted) = has_label k v labels && matches_all labels wanted

-- A nil selector matches, and the selector's expressions are not looked at.
unfoldable pub matches : Dict GoString → Option LabelSelector → Bool
unfolding matches_all
matches labels none = true
matches labels (some selector) = matches_all labels selector.match_labels

-- The requests for the instances whose selector matches.
unfoldable pub matching_requests : Dict GoString → List GrowthbookInstance → List ObjectKey
unfolding matches
matching_requests labels [] = []
matching_requests labels (i ∷ instances) =
    let rest = matching_requests labels instances in
    if matches labels i.spec.resource_selector then object_key i.object ∷ rest else rest

unfoldable pub requests_for_change_by_selector : Object → Prog Error (List ObjectKey)
unfolding matching_requests
requests_for_change_by_selector o = call (list_instances_in o.object_meta.namespace) λ listed.
    elim listed [
      | err _ ↦ ret []
      | ok instances ↦ ret (matching_requests o.object_meta.labels instances)
    ]

-- `key.String()`
abbrev pub key_text : GoString → GoString → GoString
key_text namespace name = namespace ++ (str "/" ++ name)

unfoldable pub requests_for_change_by_field : GoString → Object → Prog Error (List ObjectKey)
requests_for_change_by_field field o =
    call (list_instances_by field (key_text o.object_meta.namespace o.object_meta.name)) λ listed.
      elim listed [ err _ ↦ ret [] | ok instances ↦ ret (map (λ i. object_key i.object) instances) ]

abbrev pub root_secret_keys : GoString → Option SecretReference → List GoString
root_secret_keys namespace none = []
root_secret_keys namespace (some ref) = key_text namespace ref.name ∷ []

unfoldable pub user_secret_keys : GoString → List GrowthbookUser → List GoString
user_secret_keys namespace [] = []
user_secret_keys namespace (u ∷ users) =
    root_secret_keys namespace u.spec.secret ++ user_secret_keys namespace users

abbrev pub token_secret_keys : GoString → Option TokenSecretReference → List GoString
token_secret_keys namespace none = []
token_secret_keys namespace (some ref) = key_text namespace ref.name ∷ []

unfoldable pub client_secret_keys : GoString → List GrowthbookClient → List GoString
client_secret_keys namespace [] = []
client_secret_keys namespace (c ∷ clients) =
    token_secret_keys namespace c.spec.token_secret ++ client_secret_keys namespace clients

-- The part of the index function that is about clients.
unfoldable pub index_clients : GoString → Selector → List GoString → Prog Error (List GoString)
unfolding client_secret_keys
index_clients namespace selector keys = call (list_clients namespace selector) λ listed.
    elim listed [
      | err _ ↦ ret keys
      | ok clients ↦ ret (keys ++ client_secret_keys namespace clients)
    ]

abbrev pub index_users :
    GoString → List GoString → Result Error Selector → Prog Error (List GoString)
index_users namespace keys (err _) = ret keys
index_users namespace keys (ok selector) = call (list_users namespace selector) λ listed.
    elim listed [
      | err _ ↦ ret keys
      | ok users ↦ index_clients namespace selector (keys ++ user_secret_keys namespace users)
    ]

-- The keys of the secrets that an instance depends on; an error keeps those found so far.
unfoldable pub secret_index : Externals → GrowthbookInstance → Prog Error (List GoString)
unfolding user_secret_keys index_clients
secret_index x i =
    let namespace = i.object.object_meta.namespace in
    index_users namespace (root_secret_keys namespace i.spec.mongo_db.secret)
      (x.label_selector_as_selector i.spec.resource_selector)
