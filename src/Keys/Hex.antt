-- ===== src/Keys/Hex.antt =====
-- Separators and `hex.EncodeToString`.
use k8sgrowthbook_controller.Prelude.{ℕ, ◌/◌, ◌%◌, ◌≡◌, refl, arith, [], ◌∷◌}
use k8sgrowthbook_controller.Prelude.{
  Bool, true, false, ◌&&◌, not, Bytes, GoString, number_eq, ◌==◌,
}
use k8sgrowthbook_controller.Growthbook.Encoding.{hex_digit, hex_encode}

-- The byte `sep` does not occur.
abbrev pub lacks : ℕ → GoString → Bool
lacks sep [] = true
lacks sep (c ∷ s) = not (c == sep) && lacks sep s

digit_no_colon : (n : ℕ) → (hex_digit n == b':') ≡ false
digit_no_colon n = ground arith

pub lacks-hex_encode : (bs : Bytes) → lacks b':' (hex_encode bs) ≡ true
unfolding hex_encode
lacks-hex_encode [] = refl
lacks-hex_encode (b ∷ bs) =
    ground (arith, digit_no_colon (b / 16), digit_no_colon (b % 16), lacks-hex_encode bs)
