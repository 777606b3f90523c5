-- ===== src/Base/Lists.antt =====
-- Lists measured and indexed by native numbers, byte strings, and predicates on their members.
use Prim.Native.Nat.{ℕ, zero, suc, ◌+◌, ◌≤◌}
use Prim.Native.Char.{code}
use Prim.Native.String.{String}
use mathlib.Core.Path.{◌≡◌, refl, ap}
use mathlib.Core.Logic.{◌↔◌}
use mathlib.Core.Bool.{Bool, true, false, ◌&&◌}
use mathlib.Core.List.{List, [], ◌∷◌, ◌++◌}
use mathlib.Core.Option.{Option, none, some}
use native.Mathlib.Omega.{arith}
use libhelp.Base.Tests.{◌==◌, if◌then◌else◌}

-- A C string: its bytes, up to and without the terminating NUL.
abbrev pub Bytes : Type 0
Bytes = List ℕ

abbrev pub codes : String → Bytes
codes String.[] = []
codes (String.◌∷◌ c s) = code c ∷ codes s

abbrev pub is_nil {ℓ} : {A : Type ℓ} → List A → Bool
is_nil [] = true
is_nil (_ ∷ _) = false

module _ {ℓ} {A : Type ℓ} where
  abbrev pub length : List A → ℕ
  length [] = 0
  length (x ∷ xs) = suc (length xs)

  abbrev pub get_elem? : List A → ℕ → Option A
  get_elem? [] i = none
  get_elem? (x ∷ xs) zero = some x
  get_elem? (x ∷ xs) (suc i) = get_elem? xs i

  abbrev pub get_or : List A → ℕ → A → A
  get_or [] i d = d
  get_or (x ∷ xs) zero d = x
  get_or (x ∷ xs) (suc i) d = get_or xs i d

  -- A write out of bounds changes nothing.
  abbrev pub set : List A → ℕ → A → List A
  set [] i v = []
  set (x ∷ xs) zero v = v ∷ xs
  set (x ∷ xs) (suc i) v = x ∷ set xs i v

  abbrev pub drop : ℕ → List A → List A
  drop zero xs = xs
  drop (suc n) [] = []
  drop (suc n) (x ∷ xs) = drop n xs

  abbrev pub take : ℕ → List A → List A
  take zero xs = []
  take (suc n) [] = []
  take (suc n) (x ∷ xs) = x ∷ take n xs

  abbrev pub replicate : ℕ → A → List A
  replicate zero a = []
  replicate (suc n) a = a ∷ replicate n a

  pub take-length-le : (n : ℕ) (xs : List A) → length xs ≤ n → take n xs ≡ xs
  take-length-le zero [] h = refl
  take-length-le zero (x ∷ xs) h = absurd (omega arith)
  take-length-le (suc n) [] h = refl
  take-length-le (suc n) (x ∷ xs) h = ap (◌∷◌ x) (take-length-le n xs (omega (arith, h)))

  pub length-append : (xs ys : List A) → length (xs ++ ys) ≡ length xs + length ys
  length-append [] ys = omega arith
  length-append (x ∷ xs) ys = omega (arith, length-append xs ys)

abbrev pub All {ℓ κ} : {A : Type ℓ} → (A → Type κ) → List A → Type κ
All P [] = Unit
All P (x ∷ xs) = P x × All P xs

-- `strcmp(a, b) == 0`
unfoldable pub bytes_eq : Bytes → Bytes → Bool
bytes_eq [] [] = true
bytes_eq (x ∷ xs) (y ∷ ys) = x == y && bytes_eq xs ys
bytes_eq _ _ = false

-- `strncmp(s, name, strlen(name)) == 0`
unfoldable pub starts_with : Bytes → Bytes → Bool
starts_with [] s = true
starts_with (c ∷ name) [] = false
starts_with (c ∷ name) (d ∷ s) = c == d && starts_with name s

pub bytes_eq_iff : (a b : Bytes) → (bytes_eq a b ≡ true) ↔ (a ≡ b)
unfolding bytes_eq
bytes_eq_iff (x ∷ a) (y ∷ b) = ground (arith, bytes_eq_iff a b)
bytes_eq_iff _ _ = ground arith

pub bytes_eq_refl : (a : Bytes) → bytes_eq a a ≡ true
bytes_eq_refl a = (bytes_eq_iff a a).1 refl

-- the string at the start of a buffer: its bytes up to the first NUL
unfoldable pub c_string : Bytes → Bytes
c_string [] = []
c_string (c ∷ cs) = if c == 0 then [] else c ∷ c_string cs

-- bytes without a NUL
abbrev pub NulFree : Bytes → Type 0
NulFree s = All (λ c. (c == 0) ≡ false) s

pub c_string-NulFree : (s : Bytes) → NulFree s → c_string s ≡ s
unfolding c_string
c_string-NulFree [] h = refl
c_string-NulFree (c ∷ s) h = rw h.0 (ap (◌∷◌ c) (c_string-NulFree s h.1))

pub c_string_stop : (s r : Bytes) → NulFree s → c_string (s ++ (0 ∷ r)) ≡ s
unfolding c_string
c_string_stop [] r h = refl
c_string_stop (c ∷ s) r h = rw h.0 (ap (◌∷◌ c) (c_string_stop s r h.1))

-- how often a byte occurs
abbrev pub count : ℕ → Bytes → ℕ
count b [] = 0
count b (c ∷ cs) = (if c == b then 1 else 0) + count b cs

pub count-append : (b : ℕ) (xs ys : Bytes) → count b (xs ++ ys) ≡ count b xs + count b ys
count-append b [] ys = omega arith
count-append b (x ∷ xs) ys = omega (arith, count-append b xs ys)
