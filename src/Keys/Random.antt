-- ===== src/Keys/Random.antt =====
-- `generateKey` of internal/growthbook/sdkconnection.go.
use k8sgrowthbook_controller.Prelude.{ℕ, ◌+◌, ◌*◌, ◌/◌, ◌%◌, ◌≡◌, refl, arith, [], ◌∷◌, ◌++◌}
use k8sgrowthbook_controller.Prelude.{Bool, true, ◌&&◌, ◌||◌, Bytes, number_eq, ◌==◌}
use k8sgrowthbook_controller.Prelude.{GoString}
use k8sgrowthbook_controller.Growthbook.Encoding.{ltb, base64_digit, base64_encode, remove_byte}
use k8sgrowthbook_controller.Growthbook.SdkConnection.{key_text}

-- '0' to '9', 'A' to 'Z' or 'a' to 'z'.
abbrev pub is_alphanumeric : ℕ → Bool
is_alphanumeric c = (ltb 47 c && ltb c 58) || (ltb 64 c && ltb c 91) || (ltb 96 c && ltb c 123)

abbrev pub all_alphanumeric : GoString → Bool
all_alphanumeric [] = true
all_alphanumeric (c ∷ s) = is_alphanumeric c && all_alphanumeric s

-- A byte of base64, padding included.
abbrev is_base64 : ℕ → Bool
is_base64 c = is_alphanumeric c || c == b'+' || c == b'/' || c == b'='

abbrev all_base64 : GoString → Bool
all_base64 [] = true
all_base64 (c ∷ s) = is_base64 c && all_base64 s

is_base64-digit : (n : ℕ) → is_base64 (base64_digit n) ≡ true
is_base64-digit n = ground arith

all_base64-encode : (bs : Bytes) → all_base64 (base64_encode bs) ≡ true
unfolding base64_encode
all_base64-encode [] = refl
all_base64-encode (a ∷ []) = ground (arith, is_base64-digit (a / 4), is_base64-digit ((a % 4) * 16))
all_base64-encode (a ∷ b ∷ []) = ground (
  arith,
  is_base64-digit (a / 4),
  is_base64-digit ((a % 4) * 16 + b / 16),
  is_base64-digit ((b % 16) * 4),
)
all_base64-encode (a ∷ b ∷ c ∷ bs) = ground (
  arith,
  is_base64-digit (a / 4),
  is_base64-digit ((a % 4) * 16 + b / 16),
  is_base64-digit ((b % 16) * 4 + c / 64),
  is_base64-digit (c % 64),
  all_base64-encode bs,
)

strip : GoString → GoString
strip e = remove_byte b'+' (remove_byte b'/' (remove_byte b'=' e))

all_alphanumeric-strip : (e : GoString) → all_base64 e ≡ true → all_alphanumeric (strip e) ≡ true
unfolding strip remove_byte
all_alphanumeric-strip [] h = refl
all_alphanumeric-strip (c ∷ e) h = ground (arith, all_alphanumeric-strip e)

all_alphanumeric-append :
    (p s : GoString)
    → all_alphanumeric p ≡ true
    → all_alphanumeric s ≡ true
    → all_alphanumeric (p ++ s) ≡ true
all_alphanumeric-append [] s hp hs = hs
all_alphanumeric-append (c ∷ p) s hp hs = ground (arith, all_alphanumeric-append p s)

-- A key of random bytes, whichever they are, is letters and digits alone if its prefix is.
pub all_alphanumeric-key_text :
    (prefix : GoString) (b : Bytes)
    → all_alphanumeric prefix ≡ true
    → all_alphanumeric (key_text prefix b) ≡ true
unfolding key_text strip
all_alphanumeric-key_text prefix b h =
    all_alphanumeric-append prefix (strip (base64_encode b)) h
      (all_alphanumeric-strip (base64_encode b) (all_base64-encode b))
