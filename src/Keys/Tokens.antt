-- ===== src/Keys/Tokens.antt =====
-- The key of an SDK connection, from a client's token (`reconcileClients`).
use mathlib.Core.Option.{some-injective}
use k8sgrowthbook_controller.Prelude.{ℕ, zero, suc, ◌≤◌, ◌≡◌, refl, arith, List, [], ◌∷◌, ◌++◌}
use k8sgrowthbook_controller.Prelude.{some, GoString, str, text_eq, ◌==◌, if◌then◌else◌}
use k8sgrowthbook_controller.Prelude.{true, ◌↔◌, ◌⊎◌, inl, inr}
use k8sgrowthbook_controller.Prelude.Options.{is_some, >>=-eq-some}
use k8sgrowthbook_controller.Controller.Tokens.{slice_to, sdk_key}

abbrev pub length {ℓ} : {A : Type ℓ} → List A → ℕ
length [] = 0
length (x ∷ xs) = suc (length xs)

-- The slice panics exactly if the text is too short.
is_some-slice_to : (n : ℕ) (s : GoString) → (is_some (slice_to n s) ≡ true) ↔ (n ≤ length s)
unfolding slice_to
is_some-slice_to zero s = (λ _. omega arith, λ _. refl)
is_some-slice_to (suc n) [] = (λ h. cc, λ h. absurd (omega arith))
is_some-slice_to (suc n) (c ∷ s) = ground (arith, is_some-slice_to n s)

-- The code panics on a token of fewer than four bytes, and on no other.
pub is_some-sdk_key : (token : GoString) → (is_some (sdk_key token) ≡ true) ↔ (4 ≤ length token)
unfolding sdk_key
is_some-sdk_key token = ground (arith, is_some-slice_to 4 token)

slice_to-prefix : (token : GoString) → slice_to 4 (str "sdk-" ++ token) ≡ some (str "sdk-")
unfolding slice_to str
slice_to-prefix token = refl

abbrev key_of : GoString → GoString → GoString
key_of start token = if start == str "sdk-" then token else str "sdk-" ++ token

-- A key of the first four bytes and the token.
Keyed-key_of :
    (start token k : GoString)
    → slice_to 4 token ≡ some start
    → key_of start token ≡ k
    → ((k ≡ token) × (slice_to 4 token ≡ some (str "sdk-")))
      ⊎ ((k ≡ str "sdk-" ++ token) × ¬ (slice_to 4 token ≡ some (str "sdk-")))
Keyed-key_of start token k h e = ground arith

slice_to_of_Keyed :
    (token k : GoString)
    → ((k ≡ token) × (slice_to 4 token ≡ some (str "sdk-")))
      ⊎ ((k ≡ str "sdk-" ++ token) × ¬ (slice_to 4 token ≡ some (str "sdk-")))
    → slice_to 4 k ≡ some (str "sdk-")
slice_to_of_Keyed token k (inl h) = rw (h.0) (h.1)
slice_to_of_Keyed token k (inr h) = rw (h.0) (slice_to-prefix token)

sdk_key_again : (k : GoString) → slice_to 4 k ≡ some (str "sdk-") → sdk_key k ≡ some k
unfolding sdk_key
sdk_key_again k h = ground arith

-- A key begins with "sdk-". It is the token itself where that does, and the token after "sdk-"
-- where not. The key of a key is that key.
pub sdk_key_lem :
    (token k : GoString)
    → sdk_key token ≡ some k
    → (slice_to 4 k ≡ some (str "sdk-"))
      × (sdk_key k ≡ some k)
      × (((k ≡ token) × (slice_to 4 token ≡ some (str "sdk-")))
          ⊎ ((k ≡ str "sdk-" ++ token) × ¬ (slice_to 4 token ≡ some (str "sdk-"))))
unfolding sdk_key
sdk_key_lem token k h =
    let (start, sliced, done) = >>=-eq-some (slice_to 4 token) _ h in
    let keyed = Keyed-key_of start token k sliced (some-injective _ _ done) in
    let sliced' = slice_to_of_Keyed token k keyed in (sliced', sdk_key_again k sliced', keyed)
