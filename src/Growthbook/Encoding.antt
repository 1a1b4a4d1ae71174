-- ===== src/Growthbook/Encoding.antt =====
-- The text functions of Go's standard library that the package uses: `hex.EncodeToString`,
-- `base64.StdEncoding.EncodeToString`, `strings.Split` and `strings.Replace` of one byte by "".
use Prim.Native.Nat.{compare, Ordering}
use k8sgrowthbook_controller.Prelude.{ℕ, ◌+◌, ◌-◌, ◌*◌, ◌/◌, ◌%◌, Bool, true, false, List, [], ◌∷◌}
use k8sgrowthbook_controller.Prelude.{GoString, Bytes, ◌==◌, number_eq, if◌then◌else◌}

abbrev pub ltb : ℕ → ℕ → Bool
ltb a b = elim (compare a b) [ Ordering.lt ↦ true | _ ↦ false ]

abbrev pub hex_digit : ℕ → ℕ
hex_digit n = if ltb n 10 then b'0' + n else b'a' + (n - 10)

unfoldable pub hex_encode : Bytes → GoString
hex_encode [] = []
hex_encode (b ∷ bs) = hex_digit (b / 16) ∷ hex_digit (b % 16) ∷ hex_encode bs

abbrev pub base64_digit : ℕ → ℕ
base64_digit n =
    if ltb n 26
    then b'A' + n
    else if ltb n 52
    then b'a' + (n - 26)
    else if ltb n 62
    then b'0' + (n - 52)
    else if ltb n 63
    then b'+'
    else b'/'

-- Three bytes become four digits; the last group is padded with '='.
unfoldable pub base64_encode : Bytes → GoString
base64_encode [] = []
base64_encode (a ∷ []) = base64_digit (a / 4) ∷ base64_digit ((a % 4) * 16) ∷ b'=' ∷ b'=' ∷ []
base64_encode (a ∷ b ∷ []) =
    base64_digit (a / 4)
    ∷ base64_digit ((a % 4) * 16 + b / 16)
    ∷ base64_digit ((b % 16) * 4)
    ∷ b'='
    ∷ []
base64_encode (a ∷ b ∷ c ∷ bs) =
    base64_digit (a / 4)
    ∷ base64_digit ((a % 4) * 16 + b / 16)
    ∷ base64_digit ((b % 16) * 4 + c / 64)
    ∷ base64_digit (c % 64)
    ∷ base64_encode bs

abbrev pub cons_first : ℕ → List GoString → List GoString
cons_first c [] = (c ∷ []) ∷ []
cons_first c (p ∷ ps) = (c ∷ p) ∷ ps

-- `strings.Split(s, sep)` for a separator of one byte.
unfoldable pub split : ℕ → GoString → List GoString
split sep [] = [] ∷ []
split sep (c ∷ s) = let rest = split sep s in if c == sep then [] ∷ rest else cons_first c rest

-- `parts[0]`; `split` returns at least one part.
abbrev pub first : List GoString → GoString
first [] = []
first (p ∷ ps) = p

-- `strings.Replace(s, c, "", -1)`
unfoldable pub remove_byte : ℕ → GoString → GoString
remove_byte x [] = []
remove_byte x (c ∷ s) = let rest = remove_byte x s in if c == x then rest else c ∷ rest
