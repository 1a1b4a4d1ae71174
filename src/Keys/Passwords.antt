-- ===== src/Keys/Passwords.antt =====
-- `SetPassword` of internal/growthbook/user.go.
use k8sgrowthbook_controller.Prelude.{ℕ, true, ◌≡◌, refl, sym, ap, arith, [], ◌∷◌}
use k8sgrowthbook_controller.Prelude.{List, ◌++◌, Bytes, GoString, str, number_eq}
use k8sgrowthbook_controller.Documents.User.{User}
use k8sgrowthbook_controller.Effects.{Error, Result, ok, err, Call, Database, call, ◌>>=◌}
use k8sgrowthbook_controller.Effects.{from_result, rand_read, ret}
use k8sgrowthbook_controller.Effects.Traces.{Ensures, Always, Ensures-bind, Ensures-attempt}
use k8sgrowthbook_controller.Effects.Traces.{
  Ensures-ret, Ensures-if, Ensures-from_result, trace_rules, AllCalls,
}
use k8sgrowthbook_controller.Storage.{find_one}
use k8sgrowthbook_controller.Growthbook.Encoding.{split, first, cons_first, hex_encode}
use k8sgrowthbook_controller.Growthbook.User.{ScryptKey, set_password, decode_existing, choose_salt}
use k8sgrowthbook_controller.Growthbook.User.{new_salt, hash_len, salt_len}
use k8sgrowthbook_controller.Keys.Hex.{lacks, lacks-hex_encode}

first-cons_first : (c : ℕ) (ps : List GoString) → first (cons_first c ps) ≡ c ∷ first ps
first-cons_first c [] = refl
first-cons_first c (p ∷ ps) = refl

-- The first part of a text is what stands before the first separator.
first-split : (sep : ℕ) (a b : GoString) → lacks sep a ≡ true → first (split sep (a ++ sep ∷ b)) ≡ a
unfolding split
first-split sep [] b h = ground arith
first-split sep (c ∷ a) b h =
    ground (arith, first-split sep a b, first-cons_first c (split sep (a ++ sep ∷ b)))

lacks-first-split : (sep : ℕ) (s : GoString) → lacks sep (first (split sep s)) ≡ true
unfolding split
lacks-first-split sep [] = refl
lacks-first-split sep (c ∷ s) =
    ground (arith, lacks-first-split sep s, first-cons_first c (split sep s))

-- The salt that a stored hash begins with.
abbrev pub salt_of : GoString → GoString
salt_of hash = first (split b':' hash)

-- Checking a password against a hash, as GrowthBook does: the digest under the hash's own salt.
pub record Verifies (scrypt_key : ScryptKey) (password hash : GoString) : Type 0 where
  pub digest : Bytes
  pub computed : scrypt_key password (salt_of hash) 16384 8 1 64 ≡ ok digest
  pub stored : hash ≡ salt_of hash ++ (str ":" ++ hex_encode digest)

abbrev pub Anything : Call → Type 0
Anything c = Unit

abbrev with_hash : User → GoString → User
with_hash u hash = record u { password_hash = hash }

salt_of-hash :
    (salt rest : GoString) → lacks b':' salt ≡ true → salt_of (salt ++ (str ":" ++ rest)) ≡ salt
unfolding str
salt_of-hash salt rest h = first-split b':' salt rest h

new_salt-lacks : Ensures Anything (λ salt. lacks b':' salt ≡ true) Always new_salt
unfolding new_salt
new_salt-lacks =
    Ensures-bind Always (call (rand_read salt_len) from_result) _ (search trace_rules)
      λ buf _. Ensures-ret (hex_encode buf) (lacks-hex_encode buf)

choose_salt-lacks :
    (r : Result Error Bytes) (u : User)
    → Ensures Anything (λ salt. lacks b':' salt ≡ true) Always (choose_salt r u)
unfolding choose_salt
choose_salt-lacks r u =
    Ensures-if _ new_salt _ (λ _. new_salt-lacks)
      (λ _. Ensures-ret _ (lacks-first-split b':' u.password_hash))

decode_existing-any : (r : Result Error Bytes) → AllCalls Anything (decode_existing r)
unfolding decode_existing
decode_existing-any (ok found) = search trace_rules
decode_existing-any (err e) = search trace_rules

module _ (scrypt_key : ScryptKey) (u : User) (password : GoString) where
  -- What `SetPassword` leaves: a hash of the password, and all else as it was.
  pub record HasPassword (v : User) : Type 0 where
    pub verifies : Verifies scrypt_key password v.password_hash
    pub frame : v ≡ with_hash u v.password_hash

  HasPassword-hash :
      (salt : GoString) (p : Bytes)
      → lacks b':' salt ≡ true
      → scrypt_key password salt 16384 8 1 hash_len ≡ ok p
      → HasPassword (with_hash u (salt ++ (str ":" ++ hex_encode p)))
  HasPassword-hash salt p h e = record {
    verifies = record {
      digest = p;
      computed = rw (salt_of-hash salt (hex_encode p) h) e;
      stored = ap (λ s. s ++ (str ":" ++ hex_encode p)) (sym (salt_of-hash salt (hex_encode p) h));
    };
    frame = refl;
  }

  after_find :
      (r : Result Error Bytes)
      → Ensures Anything HasPassword Always (
          decode_existing r >>= λ existing. choose_salt r existing >>= λ salt.
          from_result (scrypt_key password salt 16384 8 1 hash_len) >>= λ p.
          ret (with_hash u (salt ++ (str ":" ++ hex_encode p))))
  after_find r = Ensures-bind Always (decode_existing r) _ (decode_existing-any r) λ existing _.
      Ensures-bind (λ salt. lacks b':' salt ≡ true) (choose_salt r existing) _
        (choose_salt-lacks r existing)
        λ salt h.
          Ensures-bind (λ p. scrypt_key password salt 16384 8 1 hash_len ≡ ok p)
            (from_result (scrypt_key password salt 16384 8 1 hash_len)) _ (Ensures-from_result _)
            λ p e. Ensures-ret _ (HasPassword-hash salt p h e)

  -- Whatever the database and the random source reply, `SetPassword` returns a user whose hash
  -- verifies the password under the salt that stands in it, and changes no other field.
  pub set_password-HasPassword :
      (db : Database) → Ensures Anything HasPassword Always (set_password scrypt_key u db password)
  unfolding set_password find_one
  set_password-HasPassword db =
      Ensures-attempt Always Always (find_one _ _) _ (search trace_rules)
        (λ found _. after_find (ok found)) (λ e _. after_find (err e))
