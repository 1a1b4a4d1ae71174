-- ===== src/Refinement/Provisioning.antt =====
-- What `reconcileUsers` does for a user of a live instance, on a shelf of users.
use mathlib.Core.Path.{subst}
use k8sgrowthbook_controller.Prelude.{◌≡◌, refl, sym, ap, ◌∙◌, arith, Option, none, some, GoString}
use k8sgrowthbook_controller.Prelude.{Bytes, str, is_empty, if◌then◌else◌}
use k8sgrowthbook_controller.Prelude.{◌==◌, text_eq}
use k8sgrowthbook_controller.Prelude.Dict.{lookup}
use k8sgrowthbook_controller.Api.Meta.{SecretReference}
use k8sgrowthbook_controller.Api.User.{GrowthbookUser, get_id, get_name}
use k8sgrowthbook_controller.Api.Instance.{GrowthbookInstance}
use k8sgrowthbook_controller.Documents.User.{User, empty_user}
use k8sgrowthbook_controller.Effects.{Error, ok, Database, Prog, ret, wrapped, Secret, ◌>>=◌}
use k8sgrowthbook_controller.Effects.{get_secret as get_secret_call, failing_as, from_result}
use k8sgrowthbook_controller.Effects.Runs.{Handler, run, run-call, run-bind, continue, Outcome}
use k8sgrowthbook_controller.Effects.Runs.{returned}
use k8sgrowthbook_controller.Growthbook.User.{
  ScryptKey, users, update_user, set_password, from_v1beta1,
}
use k8sgrowthbook_controller.Keys.Passwords.{Verifies, HasPassword}
use k8sgrowthbook_controller.Controller.Externals.{Externals}
use k8sgrowthbook_controller.Controller.Secrets.{get_optional_username_password, field_or_empty}
use k8sgrowthbook_controller.Controller.Secrets.{get_secret, field_or, or_fail}
use k8sgrowthbook_controller.Controller.Users.{named, upsert_user}
use k8sgrowthbook_controller.Refinement.Shelf.{IsShelf, Lands}
use k8sgrowthbook_controller.Refinement.Landing.{Lands-from, Lands-weaken}
use k8sgrowthbook_controller.Refinement.Users.{user_kind, upserted_user, update_user_refines}
use k8sgrowthbook_controller.Refinement.Passwords.{
  set_password-Returns, set_password-result, Returns,
}

-- The identity that the resource and the user name of its secret give.
pub record HasIdentity (user : GrowthbookUser) (username : GoString) (v : User) : Type 0 where
  pub id : v.id ≡ get_id user
  pub email : v.email ≡ user.spec.email
  pub name : v.name ≡ (if is_empty username then get_name user else username)

-- The user that the resource describes, before it has a password.
abbrev described : GrowthbookUser → GoString → User
described user username = named username (from_v1beta1 empty_user user)

named-HasIdentity :
    (user : GrowthbookUser) (username : GoString)
    → HasIdentity user username (described user username)
unfolding from_v1beta1
named-HasIdentity user username = record {
  id = ground arith;
  email = ground arith;
  name = ground arith;
}

same_user :
    (v w : User)
    → v.id ≡ w.id
    → v.email ≡ w.email
    → v.name ≡ w.name
    → v.password_hash ≡ w.password_hash
    → v.revision ≡ w.revision
    → v ≡ w
same_user v w i e n p r = cc

own_put : (id : GoString) (a b : Option User) → (if id == id then a else b) ≡ a
own_put id a b = ground arith

same_put :
    (j id : GoString) (o : GoString → Option User) (a : Option User)
    → o id ≡ a
    → (if j == id then a else o j) ≡ o j
same_put j id o a e = ground arith

-- What may become of a user. A new one has the identity and a hash of the password, and one that
-- is there gets the identity alone.
abbrev pub AfterUser :
    ScryptKey → GrowthbookUser → GoString → GoString → Option User → User → Type 0
AfterUser scrypt_key user username password none v =
    HasIdentity user username v × Verifies scrypt_key password v.password_hash
AfterUser scrypt_key user username password (some e) v =
    HasIdentity user username v × (v.password_hash ≡ e.password_hash) × (v.revision ≡ e.revision)

-- A user that was put in is put in again as it is.
pub AfterUser-again :
    (k : ScryptKey) (user : GrowthbookUser) (username password : GoString) (o : Option User)
    (v w : User)
    → AfterUser k user username password o v
    → AfterUser k user username password (some v) w
    → w ≡ v
AfterUser-again k user username password none v w (i, _) (j, hash, revision) =
    same_user w v (j.id ∙ sym i.id) (j.email ∙ sym i.email) (j.name ∙ sym i.name) hash revision
AfterUser-again k user username password (some e) v w (i, _, _) (j, hash, revision) =
    same_user w v (j.id ∙ sym i.id) (j.email ∙ sym i.email) (j.name ∙ sym i.name) hash revision

module _ {S : Type 0} (x : Externals) (db : Database) (h : Handler S) (no_documents : Error)
    (encode : User → Bytes) (stored : GoString → S → Option User)
    (laws : IsShelf h (user_kind encode) (users db) no_documents stored) (i : GrowthbookInstance)
    (user : GrowthbookUser) (ref : SecretReference) (secret : Secret) (password : GoString)
    (named_secret : user.spec.secret ≡ some ref)
    (held : (s : S)
      → h
          (get_secret_call (record { namespace = i.object.object_meta.namespace; name = ref.name }))
          s
        ≡ (ok secret, s))
    (has_password : lookup ref.password_field secret.values ≡ some password)
    (hashes : (salt : GoString)
      → (p : Bytes) × (x.scrypt_key password salt 16384 8 1 64 ≡ ok p)) where
  abbrev username : GoString
  username = field_or_empty secret ref.user_field

  abbrev After : Option User → User → Type 0
  After = AfterUser x.scrypt_key user username password

  -- What is read of the secret.
  abbrev reading : Secret → Prog Error (GoString × GoString)
  reading found =
      field_or (str "defined password field not found in secret") found ref.password_field >>= λ pw.
      ret (field_or_empty found ref.user_field, pw)

  run-reading : (s : S) → run h (reading secret) s ≡ (returned (username, password), s)
  unfolding field_or or_fail ◌>>=◌
  run-reading s = rw has_password refl

  run-credentials :
      (s : S)
      → run h (get_optional_username_password i user.spec.secret) s
        ≡ (returned (username, password), s)
  unfolding get_optional_username_password get_secret failing_as from_result ◌>>=◌
  run-credentials s = rw named_secret (
      run-call h
        (get_secret_call (record { namespace = i.object.object_meta.namespace; name = ref.name }))
        (λ r.
          failing_as (wrapped (str "referencing secret was not found")) (from_result r) >>= reading)
        s s (ok secret) (held s)
      ∙ run-reading s)

  abbrev setting : S → Outcome Error User × S
  setting s = run h (set_password x.scrypt_key (described user username) db password) s

  abbrev setting-Returns : (s : S) → Returns stored s (setting s)
  setting-Returns s =
      set_password-Returns db h no_documents encode stored laws x.scrypt_key password
        (described user username) hashes s

  -- The user whose document is written.
  abbrev written : S → User
  written s = (setting-Returns s).result

  written-HasPassword :
      (s : S) → HasPassword x.scrypt_key (described user username) password (written s)
  written-HasPassword s =
      set_password-result db h no_documents encode stored laws x.scrypt_key password
        (described user username) hashes s

  abbrev provide : GoString × GoString → Prog Error Unit
  provide credentials =
      set_password x.scrypt_key (described user credentials.0) db credentials.1 >>= λ u.
      update_user u db

  run-upsert_user :
      (s : S) → run h (upsert_user x db i user) s ≡ run h (update_user (written s) db) (setting s).1
  unfolding upsert_user
  run-upsert_user s =
      run-bind h (get_optional_username_password i user.spec.secret) provide s
      ∙ ap (λ (o : Outcome Error (GoString × GoString) × S). continue h provide o.0 o.1)
          (run-credentials s)
      ∙ run-bind h (set_password x.scrypt_key (described user username) db password)
          (λ u. update_user u db) s
      ∙ ap (λ (o : Outcome Error User). continue h (λ u. update_user u db) o (setting s).1)
          (setting-Returns s).ends

  written-HasIdentity : (s : S) → HasIdentity user username (written s)
  written-HasIdentity s =
      let frame = (written-HasPassword s).frame in
      let identity = named-HasIdentity user username in
      record {
        id = ap (λ (v : User). v.id) frame ∙ identity.id;
        email = ap (λ (v : User). v.email) frame ∙ identity.email;
        name = ap (λ (v : User). v.name) frame ∙ identity.name;
      }

  upserted-After :
      (s : S) (o : Option User) (v : User) → v ≡ upserted_user (written s) o → After o v
  upserted-After s none v e =
      subst (After none) (sym e) (written-HasIdentity s, (written-HasPassword s).verifies)
  upserted-After s (some d) v e =
      let identity = written-HasIdentity s in
      subst (After (some d)) (sym e)
        (record { id = identity.id; email = identity.email; name = identity.name }, refl, refl)

  -- What `reconcileUsers` does for a user that stays succeeds, on a shelf of users, in a cluster that
  -- keeps the secret that the user names with a password in it, and with a library that hashes this
  -- password under every salt. Under the user's ID it puts in a user with the identity that the
  -- resource describes and a hash that verifies the password if there was none; if there was one, it
  -- puts in the identity over the password hash and revision of that one, so the password of the
  -- secret does not matter then. No other user changes.
  pub upsert_user_provisions :
      (s : S)
      → Lands stored
          (get_id user)
          (AfterUser x.scrypt_key user username password (stored (get_id user) s))
          s
          (run h (upsert_user x db i user) s)
  upsert_user_provisions s =
      let w = written s in
      let s1 = (setting s).1 in
      let o = run h (update_user w db) s1 in
      let keeps = (setting-Returns s).keeps in
      let at_w : Lands stored w.id (After (stored w.id s)) s o =
        Lands-from w.id (After (stored w.id s)) s s1 o keeps (
          Lands-weaken w.id _ (After (stored w.id s)) s1 o
            (λ v e.
              upserted-After s (stored w.id s) v (e ∙ ap (λ q. upserted_user w q) (keeps w.id)))
            (update_user_refines db h no_documents encode stored laws w s1)) in
      rw (run-upsert_user s)
        (subst (λ j. Lands stored j (After (stored j s)) s o) (written-HasIdentity s).id at_w)

  -- On such a shelf, in such a cluster and with such a library, what `reconcileUsers` does for a user
  -- that stays succeeds a second time too, and all documents are as after the first.
  pub upsert_user_settles :
      (s : S)
      → let t = (run h (upsert_user x db i user) s).1 in
        ((run h (upsert_user x db i user) t).0 ≡ returned tt)
        × ((j : GoString) → stored j (run h (upsert_user x db i user) t).1 ≡ stored j t)
  upsert_user_settles s =
      let first = upsert_user_provisions s in
      let t = (run h (upsert_user x db i user) s).1 in
      let second = upsert_user_provisions t in
      let there : stored (get_id user) t ≡ some first.outcome =
        first.puts (get_id user) ∙ own_put (get_id user) _ _ in
      let same : second.outcome ≡ first.outcome =
        AfterUser-again x.scrypt_key user username password (stored (get_id user) s) first.outcome
          second.outcome first.holds (subst (λ o. After o second.outcome) there second.holds) in
      (
        second.ends,
        λ j.
            second.puts j
            ∙ same_put j (get_id user) (λ j. stored j t) _ (there ∙ ap some (sym same)),
      )
