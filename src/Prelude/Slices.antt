-- ===== src/Prelude/Slices.antt =====
-- Go slices: `none` is the nil slice, which BSON and the program's nil tests tell from an empty one.
use mathlib.Core.Path.{◌≡◌, refl}
use mathlib.Core.Option.{Option, none, some}
use mathlib.Core.List.{List, [], ◌∷◌, ◌++◌, append_assoc}

abbrev pub Slice {ℓ} : Type ℓ → Type ℓ
Slice A = Option (List A)

module _ {ℓ} {A : Type ℓ} where
  -- What `range` goes through.
  abbrev pub elems : Slice A → List A
  elems none = []
  elems (some xs) = xs

  -- `append(s, xs...)`: nil stays nil if nothing is appended.
  abbrev pub append : Slice A → List A → Slice A
  append none [] = none
  append none (x ∷ xs) = some (x ∷ xs)
  append (some ys) xs = some (ys ++ xs)

  -- `if s == nil { s = []T{} }`
  abbrev pub or_empty : Slice A → Slice A
  or_empty none = some []
  or_empty (some xs) = some xs

  pub elems-append : (s : Slice A) (xs : List A) → elems (append s xs) ≡ elems s ++ xs
  elems-append none [] = refl
  elems-append none (x ∷ xs) = refl
  elems-append (some ys) xs = refl

  pub append-elems : (s : Slice A) (xs ys : List A) → append (append s xs) ys ≡ append s (xs ++ ys)
  append-elems none [] ys = refl
  append-elems none (x ∷ xs) ys = refl
  append-elems (some zs) xs ys = rw append_assoc
