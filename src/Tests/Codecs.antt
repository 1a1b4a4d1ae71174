-- ===== src/Tests/Codecs.antt =====
-- Encodings of values as bytes, for the stores of the tests.
use k8sgrowthbook_controller.Prelude.{ℕ, zero, suc, ◌≡◌, refl, ap, [], ◌∷◌, List, Bool, true, false}
use k8sgrowthbook_controller.Prelude.{GoString, Bytes, ℤ, pos, negsuc, Option, none, some}
use k8sgrowthbook_controller.Keys.Tokens.{length}

-- A value is put before what follows it, and a reader gets it back, and the rest.
pub record Codec (A : Type 0) : Type 0 where
  pub put : A → Bytes → Bytes
  pub get : Bytes → A × Bytes
  pub law : (a : A) (r : Bytes) → get (put a r) ≡ (a, r)

abbrev pub get_number : Bytes → ℕ × Bytes
get_number [] = (0, [])
get_number (n ∷ r) = (n, r)

abbrev pub number : Codec ℕ
number = record { put = λ n r. n ∷ r; get = get_number; law = λ n r. refl }

module _ {A B : Type 0} where
  -- A type with a view as another that has an encoding.
  abbrev pub via : (f : A → B) (g : B → A) → ((a : A) → g (f a) ≡ a) → Codec B → Codec A
  via f g e c = record {
    put = λ a r. c.put (f a) r;
    get = λ b. let p = c.get b in (g p.0, p.1);
    law = λ a r. rw (c.law (f a) r) (ap (λ x. (x, r)) (e a));
  }

  abbrev pub both : Codec A → Codec B → Codec (A × B)
  both c d = record {
    put = λ p r. c.put p.0 (d.put p.1 r);
    get = λ b. let p = c.get b in let q = d.get p.1 in ((p.0, q.0), q.1);
    law = λ p r. rw (c.law p.0 (d.put p.1 r), d.law p.1 r) refl;
  }

module _ {A : Type 0} (c : Codec A) where
  abbrev pub put_items : List A → Bytes → Bytes
  put_items [] r = r
  put_items (a ∷ xs) r = c.put a (put_items xs r)

  abbrev pub get_items : ℕ → Bytes → List A × Bytes
  get_items zero r = ([], r)
  get_items (suc n) r = let p = c.get r in let q = get_items n p.1 in (p.0 ∷ q.0, q.1)

  pub get_items-put : (xs : List A) (r : Bytes) → get_items (length xs) (put_items xs r) ≡ (xs, r)
  get_items-put [] r = refl
  get_items-put (a ∷ xs) r = rw (c.law a (put_items xs r), get_items-put xs r) refl

  abbrev pub get_list : Bytes → List A × Bytes
  get_list [] = ([], [])
  get_list (n ∷ r) = get_items n r

  abbrev pub list : Codec (List A)
  list = record { put = λ xs r. length xs ∷ put_items xs r; get = get_list; law = get_items-put }

  abbrev pub put_option : Option A → Bytes → Bytes
  put_option none r = 0 ∷ r
  put_option (some a) r = 1 ∷ c.put a r

  abbrev pub get_option : Bytes → Option A × Bytes
  get_option [] = (none, [])
  get_option (zero ∷ r) = (none, r)
  get_option (suc _ ∷ r) = let p = c.get r in (some p.0, p.1)

  pub get_option-put : (o : Option A) (r : Bytes) → get_option (put_option o r) ≡ (o, r)
  get_option-put none r = refl
  get_option-put (some a) r = rw (c.law a r) refl

  abbrev pub option : Codec (Option A)
  option = record { put = put_option; get = get_option; law = get_option-put }

abbrev pub bit : Bool → ℕ
bit true = 1
bit false = 0

abbrev pub is_set : ℕ → Bool
is_set zero = false
is_set (suc _) = true

pub is_set-bit : (b : Bool) → is_set (bit b) ≡ b
is_set-bit true = refl
is_set-bit false = refl

abbrev pub flag : Codec Bool
flag = via bit is_set is_set-bit number

abbrev pub signed : ℤ → ℕ × ℕ
signed (pos n) = (0, n)
signed (negsuc n) = (1, n)

abbrev pub unsigned : ℕ × ℕ → ℤ
unsigned (zero, n) = pos n
unsigned (suc _, n) = negsuc n

pub unsigned-signed : (z : ℤ) → unsigned (signed z) ≡ z
unsigned-signed (pos n) = refl
unsigned-signed (negsuc n) = refl

abbrev pub int : Codec ℤ
int = via signed unsigned unsigned-signed (both number number)

abbrev pub text : Codec GoString
text = list number

abbrev pub texts : Codec (Option (List GoString))
texts = option (list text)
