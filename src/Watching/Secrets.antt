-- ===== src/Watching/Secrets.antt =====
-- The index of secrets that `SetupWithManager` installs.
use k8sgrowthbook_controller.Prelude.{◌≡◌, refl, ap, ◌∙◌, Option, none, some, List, [], ◌∷◌, ◌++◌}
use k8sgrowthbook_controller.Prelude.{GoString, inl, inr}
use k8sgrowthbook_controller.Api.Meta.{SecretReference}
use k8sgrowthbook_controller.Api.User.{GrowthbookUser}
use k8sgrowthbook_controller.Api.Client.{GrowthbookClient, TokenSecretReference}
use k8sgrowthbook_controller.Api.Instance.{GrowthbookInstance}
use k8sgrowthbook_controller.Effects.{
  Error, Result, ok, err, Selector, Prog, ret, list_users, list_clients,
}
use k8sgrowthbook_controller.Effects.Runs.{Handler, run, returned, run-call}
use k8sgrowthbook_controller.Controller.Externals.{Externals}
use k8sgrowthbook_controller.Controller.Watches.{key_text, secret_index, root_secret_keys}
use k8sgrowthbook_controller.Controller.Watches.{
  user_secret_keys, client_secret_keys, index_clients,
}
use k8sgrowthbook_controller.Controller.Watches.{index_users, token_secret_keys}
use k8sgrowthbook_controller.Watching.Requests.{In}

In-left : (k : GoString) (xs ys : List GoString) → In k xs → In k (xs ++ ys)
In-left k [] ys h = absurd h
In-left k (x ∷ xs) ys (inl e) = inl e
In-left k (x ∷ xs) ys (inr h) = inr (In-left k xs ys h)

In-right : (k : GoString) (xs ys : List GoString) → In k ys → In k (xs ++ ys)
In-right k [] ys h = h
In-right k (x ∷ xs) ys h = inr (In-right k xs ys h)

-- A secret that is referred to is among the keys.
abbrev pub HasSecret : GoString → List GoString → Option SecretReference → Type 0
HasSecret namespace keys none = Unit
HasSecret namespace keys (some ref) = In (key_text namespace ref.name) keys

abbrev pub HasToken : GoString → List GoString → Option TokenSecretReference → Type 0
HasToken namespace keys none = Unit
HasToken namespace keys (some ref) = In (key_text namespace ref.name) keys

abbrev pub HasUsers : GoString → List GoString → List GrowthbookUser → Type 0
HasUsers namespace keys [] = Unit
HasUsers namespace keys (u ∷ users) =
    HasSecret namespace keys u.spec.secret × HasUsers namespace keys users

abbrev pub HasClients : GoString → List GoString → List GrowthbookClient → Type 0
HasClients namespace keys [] = Unit
HasClients namespace keys (c ∷ clients) =
    HasToken namespace keys c.spec.token_secret × HasClients namespace keys clients

module _ (namespace : GoString) where
  root-HasSecret :
      (ref : Option SecretReference) (keys : List GoString)
      → ((k : GoString) → In k (root_secret_keys namespace ref) → In k keys)
      → HasSecret namespace keys ref
  root-HasSecret none keys sub = tt
  root-HasSecret (some ref) keys sub = sub _ (inl refl)

  user_secret_keys-HasUsers :
      (users : List GrowthbookUser) (keys : List GoString)
      → ((k : GoString) → In k (user_secret_keys namespace users) → In k keys)
      → HasUsers namespace keys users
  unfolding user_secret_keys
  user_secret_keys-HasUsers [] keys sub = tt
  user_secret_keys-HasUsers (u ∷ users) keys sub = (
    root-HasSecret u.spec.secret keys (λ k h. sub k (In-left k _ _ h)),
    user_secret_keys-HasUsers users keys (λ k h. sub k (In-right k _ _ h)),
  )

  token-HasToken :
      (ref : Option TokenSecretReference) (keys : List GoString)
      → ((k : GoString) → In k (token_secret_keys namespace ref) → In k keys)
      → HasToken namespace keys ref
  token-HasToken none keys sub = tt
  token-HasToken (some ref) keys sub = sub _ (inl refl)

  client_secret_keys-HasClients :
      (clients : List GrowthbookClient) (keys : List GoString)
      → ((k : GoString) → In k (client_secret_keys namespace clients) → In k keys)
      → HasClients namespace keys clients
  unfolding client_secret_keys
  client_secret_keys-HasClients [] keys sub = tt
  client_secret_keys-HasClients (c ∷ clients) keys sub = (
    token-HasToken c.spec.token_secret keys (λ k h. sub k (In-left k _ _ h)),
    client_secret_keys-HasClients clients keys (λ k h. sub k (In-right k _ _ h)),
  )

-- The keys of an instance, its users and its clients.
abbrev pub all_keys :
    GrowthbookInstance → List GrowthbookUser → List GrowthbookClient → List GoString
all_keys i users clients =
    let namespace = i.object.object_meta.namespace in
    (root_secret_keys namespace i.spec.mongo_db.secret ++ user_secret_keys namespace users)
    ++ client_secret_keys namespace clients

abbrev pub Indexed :
    GrowthbookInstance → List GrowthbookUser → List GrowthbookClient → List GoString → Type 0
Indexed i users clients keys =
    let namespace = i.object.object_meta.namespace in
    HasSecret namespace keys i.spec.mongo_db.secret
    × HasUsers namespace keys users
    × HasClients namespace keys clients

all_keys-Indexed :
    (i : GrowthbookInstance) (users : List GrowthbookUser) (clients : List GrowthbookClient)
    → Indexed i users clients (all_keys i users clients)
all_keys-Indexed i users clients =
    let namespace = i.object.object_meta.namespace in
    let root = root_secret_keys namespace i.spec.mongo_db.secret in
    let us = user_secret_keys namespace users in
    let cs = client_secret_keys namespace clients in
    (
      root-HasSecret namespace i.spec.mongo_db.secret _
          (λ k h. In-left k (root ++ us) cs (In-left k root us h)),
      user_secret_keys-HasUsers namespace users _
          (λ k h. In-left k (root ++ us) cs (In-right k root us h)),
      client_secret_keys-HasClients namespace clients _ (λ k h. In-right k (root ++ us) cs h),
    )

module _ (namespace : GoString) (selector : Selector) (keys : List GoString) where
  -- What the index does with the reply to each list.
  abbrev after_users : Result Error (List GrowthbookUser) → Prog Error (List GoString)
  after_users listed = elim listed [
    | err _ ↦ ret keys
    | ok users ↦ index_clients namespace selector (keys ++ user_secret_keys namespace users)
  ]

  abbrev after_clients : Result Error (List GrowthbookClient) → Prog Error (List GoString)
  after_clients listed = elim listed [
    | err _ ↦ ret keys
    | ok clients ↦ ret (keys ++ client_secret_keys namespace clients)
  ]

-- In a world that lists the users and the clients by the instance's selector, the index of secrets
-- ends without an error, and its keys have the secret of the instance, that of each listed user and
-- that of each listed client, as far as these refer to one.
pub secret_index-Indexed :
    {S : Type 0} (x : Externals) (i : GrowthbookInstance) (h : Handler S) (r s t : S)
    (selector : Selector) (users : List GrowthbookUser) (clients : List GrowthbookClient)
    → x.label_selector_as_selector i.spec.resource_selector ≡ ok selector
    → h (list_users i.object.object_meta.namespace selector) r ≡ (ok users, s)
    → h (list_clients i.object.object_meta.namespace selector) s ≡ (ok clients, t)
    → (keys : List GoString) × (run h (secret_index x i) r ≡ (returned keys, t))
      × Indexed i users clients keys
unfolding secret_index index_clients
secret_index-Indexed x i h r s t selector users clients e hu hc =
    let namespace = i.object.object_meta.namespace in
    let root = root_secret_keys namespace i.spec.mongo_db.secret in
    (
      all_keys i users clients,
      ap (λ o. run h (index_users namespace root o) r) e
          ∙ run-call h (list_users namespace selector) (after_users namespace selector root) r s
              (ok users) hu
          ∙ run-call h (list_clients namespace selector)
              (after_clients namespace selector (root ++ user_secret_keys namespace users)) s t
              (ok clients) hc,
      all_keys-Indexed i users clients,
    )
