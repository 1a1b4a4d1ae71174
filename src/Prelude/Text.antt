-- ===== src/Prelude/Text.antt =====
-- Go strings are sequences of bytes.
use Prim.Native.Nat.{ℕ}
use Prim.Native.Char.{code}
use Prim.Native.String.{String}
use native.Mathlib.Decide.{ℕ_discrete}
use mathlib.Core.Bool.{Bool, true, false}
use mathlib.Core.List.{List, [], ◌∷◌}
use k8sgrowthbook_controller.Prelude.Equality.{Eq}

abbrev pub Bytes : Type 0
Bytes = List ℕ

abbrev pub GoString : Type 0
GoString = Bytes

-- The bytes of a literal of the source; all of these are ASCII.
unfoldable pub str : String → GoString
str String.[] = []
str (String.◌∷◌ c s) = code c ∷ str s

bytes_dec : Discrete Bytes
bytes_dec = hlevel ℕ_discrete

-- `==` on strings and `bytes.Equal`.
instance unfoldable pub text_eq : Eq GoString
unfolding bytes_dec ℕ_discrete
text_eq = record { dec = bytes_dec }

abbrev pub is_empty : GoString → Bool
is_empty [] = true
is_empty (c ∷ s) = false
