-- ===== src/Prelude/Int.antt =====
-- Go's `int`, `int64` and `time.Duration`, as integers; `negsuc n` is -(n + 1).
use Prim.Native.Nat.{ℕ, ◌-◌, compare, Ordering}

pub data ℤ : Type 0 where
  pos : ℕ → ℤ
  negsuc : ℕ → ℤ

-- a - b
abbrev pub sub_ℕ : ℕ → ℕ → ℤ
sub_ℕ a b = elim (compare a b) [ Ordering.lt ↦ negsuc (b - a - 1) | _ ↦ pos (a - b) ]
