-- ===== src/Refinement/Passwords.antt =====
-- `SetPassword` on a shelf of users.
use k8sgrowthbook_controller.Prelude.{◌≡◌, refl, sym, ap, ◌∙◌, Bool, true, false, ◌||◌, ◌++◌}
use k8sgrowthbook_controller.Prelude.{Option, none, some, GoString, Bytes, is_empty, str}
use k8sgrowthbook_controller.Prelude.{if◌then◌else◌}
use mathlib.Core.Path.{subst}
use k8sgrowthbook_controller.Prelude.{inl, inr}
use k8sgrowthbook_controller.Prelude.Options.{Option-cases}
use k8sgrowthbook_controller.Documents.User.{User, empty_user}
use k8sgrowthbook_controller.Effects.{Error, Result, ok, err, Database, Prog, ret, call, rand_read}
use k8sgrowthbook_controller.Effects.{from_result, ◌>>=◌, attempt, mongo_find_one, decode_user}
use k8sgrowthbook_controller.Effects.Runs.{Handler, run, run-call, run-bind, continue, Outcome}
use k8sgrowthbook_controller.Effects.Runs.{returned, OfReturned, run-Ensures}
use k8sgrowthbook_controller.Storage.{by_id, find_one}
use k8sgrowthbook_controller.Growthbook.Encoding.{hex_encode}
use k8sgrowthbook_controller.Growthbook.User.{ScryptKey, users, set_password, choose_salt, new_salt}
use k8sgrowthbook_controller.Growthbook.User.{decode_existing, is_error}
use k8sgrowthbook_controller.Keys.Passwords.{
  Verifies, salt_of, HasPassword, set_password-HasPassword,
}
use k8sgrowthbook_controller.Refinement.Shelf.{IsShelf, answer}
use k8sgrowthbook_controller.Refinement.Landing.{run_known}
use k8sgrowthbook_controller.Refinement.Users.{user_kind}

abbrev pub with_hash : User → GoString → User
with_hash u hash = record u { password_hash = hash }

-- A run that returns a value and leaves the documents alone.
pub record Returns {A S : Type 0} (stored : GoString → S → Option User) (s : S)
    (o : Outcome Error A × S) : Type 0 where
  pub result : A
  pub ends : o.0 ≡ returned result
  pub keeps : (j : GoString) → stored j o.1 ≡ stored j s

module _ {S : Type 0} (db : Database) (h : Handler S) (no_documents : Error) (encode : User → Bytes)
    (stored : GoString → S → Option User)
    (laws : IsShelf h (user_kind encode) (users db) no_documents stored) (scrypt_key : ScryptKey)
    (password : GoString) (u : User) where
  -- What is done with the salt, and before that with the document found.
  abbrev salted : GoString → Prog Error User
  salted salt = from_result (scrypt_key password salt 16384 8 1 64) >>= λ p.
      ret (with_hash u (salt ++ (str ":" ++ hex_encode p)))

  abbrev with_existing : Result Error Bytes → User → Prog Error User
  with_existing r existing = choose_salt r existing >>= salted

  run-salted :
      (salt : GoString) (p : Bytes) (s : S)
      → scrypt_key password salt 16384 8 1 64 ≡ ok p
      → run h (salted salt) s ≡ (returned (with_hash u (salt ++ (str ":" ++ hex_encode p))), s)
  unfolding ◌>>=◌ from_result
  run-salted salt p s e = rw e refl

  run-existing :
      (e : User) (s : S)
      → stored u.id s ≡ some e
      → run h (set_password scrypt_key u db password) s ≡ run h (with_existing (ok (encode e)) e) s
  unfolding set_password find_one attempt from_result ◌>>=◌ decode_existing
  run-existing e s q =
      run-call h (mongo_find_one (users db) (by_id u.id))
        (λ r. attempt (from_result r) (λ found. decode_existing found >>= with_existing found)) s s
        (ok (encode e))
        (laws.finds u.id s ∙ ap (λ o. (answer no_documents (user_kind encode) o, s)) q)
      ∙ run-bind h (call (decode_user (encode e)) from_result) (with_existing (ok (encode e))) s
      ∙ ap (λ (o : Outcome Error User × S). continue h (with_existing (ok (encode e))) o.0 o.1)
          (laws.decodes e s)

  run-kept_salt :
      (b : Bytes) (e : User) (s : S)
      → is_empty (salt_of e.password_hash) ≡ false
      → run h (with_existing (ok b) e) s ≡ run h (salted (salt_of e.password_hash)) s
  unfolding choose_salt ◌>>=◌
  run-kept_salt b e s n = rw n refl

  run-missing :
      (s : S)
      → stored u.id s ≡ none
      → run h (set_password scrypt_key u db password) s
        ≡ run h (with_existing (err no_documents) empty_user) s
  unfolding set_password find_one attempt from_result ◌>>=◌ decode_existing
  run-missing s q =
      run-call h (mongo_find_one (users db) (by_id u.id))
        (λ r. attempt (from_result r) (λ found. decode_existing found >>= with_existing found)) s s
        (err no_documents)
        (laws.finds u.id s ∙ ap (λ o. (answer no_documents (user_kind encode) o, s)) q)

  -- If the shelf has a document of the user whose hash verifies the password under a salt that is
  -- not empty, `SetPassword` of that password returns the user with that very hash, and leaves the
  -- world as it was.
  pub set_password_again :
      (e : User) (s : S)
      → stored u.id s ≡ some e
      → Verifies scrypt_key password e.password_hash
      → is_empty (salt_of e.password_hash) ≡ false
      → run h (set_password scrypt_key u db password) s
        ≡ (returned (with_hash u e.password_hash), s)
  set_password_again e s q v n =
      run-existing e s q
      ∙ run-kept_salt (encode e) e s n
      ∙ run-salted (salt_of e.password_hash) v.digest s v.computed
      ∙ ap (λ hash. (returned (with_hash u hash), s)) (sym v.stored)

  module _
      (hashes : (salt : GoString)
        → (p : Bytes) × (scrypt_key password salt 16384 8 1 64 ≡ ok p)) where
    salted-Returns :
        (salt : GoString) (s t : S)
        → ((j : GoString) → stored j t ≡ stored j s)
        → Returns stored s (run h (salted salt) t)
    salted-Returns salt s t k =
        let (p, e) = hashes salt in
        let run_e = run-salted salt p t e in
        record {
          result = with_hash u (salt ++ (str ":" ++ hex_encode p));
          ends = ap (λ (o : Outcome Error User × S). o.0) run_e;
          keeps = λ j. ap (λ (o : Outcome Error User × S). stored j o.1) run_e ∙ k j;
        }

    fresh_salt-Returns : (s : S) → Returns stored s (run h (new_salt >>= salted) s)
    unfolding new_salt ◌>>=◌ from_result
    fresh_salt-Returns s =
        let (b, e) = laws.draws 16 s in
        subst (Returns stored s)
          (sym (
            run_known h (rand_read 16)
              (λ r. (from_result r >>= λ buf. ret (hex_encode buf)) >>= salted) s (ok b) e))
          (salted-Returns (hex_encode b) s (h (rand_read 16) s).1 (λ j. laws.drawn 16 j s))

    choice-Returns :
        (c : Bool) (salt : GoString) (s : S)
        → Returns stored s (run h ((if c then new_salt else ret salt) >>= salted) s)
    unfolding ◌>>=◌
    choice-Returns true salt s = fresh_salt-Returns s
    choice-Returns false salt s = salted-Returns salt s s (λ j. refl)

    with_existing-Returns :
        (r : Result Error Bytes) (e : User) (s : S) → Returns stored s (run h (with_existing r e) s)
    unfolding choose_salt
    with_existing-Returns r e s =
        choice-Returns (is_error r || is_empty (salt_of e.password_hash)) (salt_of e.password_hash)
          s

    -- `SetPassword` succeeds, and leaves the documents alone.
    pub set_password-Returns :
        (s : S) → Returns stored s (run h (set_password scrypt_key u db password) s)
    set_password-Returns s = elim (Option-cases (stored u.id s)) [
      | inl q ↦ rw (run-missing s q) (with_existing-Returns (err no_documents) empty_user s)
      | inr (e, q) ↦ rw (run-existing e s q) (with_existing-Returns (ok (encode e)) e s)
    ]

    -- So what it returns is the user with a hash of the password.
    pub set_password-result :
        (s : S) → HasPassword scrypt_key u password (set_password-Returns s).result
    set_password-result s =
        subst (OfReturned (HasPassword scrypt_key u password)) (set_password-Returns s).ends (
          run-Ensures h (set_password scrypt_key u db password) s
            (set_password-HasPassword scrypt_key u password db))
