-- ===== src/Str/Append.antt =====
-- `strcatps`, `strcatps2`, `strcatpd` and `strcatpc` of src/str.h, and `_tolower` and `_toupper`.
-- `_p` is a place in an array; a `memcpy` behind the end of either array is undefined, `none`.
use libhelp.Base.{
  ℕ, zero, suc, ◌+◌, ◌-◌, ◌/◌, ◌%◌, ◌≤◌, ◌≡◌, refl, ap, ◌∙◌, sym, arith, true, Option, none, some,
  List, [], ◌∷◌, ◌++◌, append_assoc, append-nil, Bytes, length, length-append, take, drop, leb,
  within, ◌==◌, if◌then◌else◌,
}

-- `memcpy(_p, _s, n)`
memcpy : ℕ → Bytes → ℕ → Bytes → Option Bytes
memcpy p s n array =
    if leb n (length s)
    then if leb (p + n) (length array)
      then some (take p array ++ take n s ++ drop (p + n) array)
      else none
    else none

-- the array afterwards and `_p += n`
moved : ℕ → Option Bytes → Option (ℕ × Bytes)
moved p none = none
moved p (some array) = some (p, array)

-- `strcatpc(_p, _s, _z)`; `strcatps` and `strcatps2` are the same, with the data and the size that are
-- fields of a string
unfoldable pub strcatpc : ℕ → Bytes → ℕ → Bytes → Option (ℕ × Bytes)
unfolding memcpy moved
strcatpc p s z array = moved (p + z) (memcpy p s z array)

-- `strcatpd(_p, _s)` for an array `_s` with its NUL: `sizeof(_s) - 1`
unfoldable pub strcatpd : ℕ → Bytes → Bytes → Option (ℕ × Bytes)
unfolding strcatpc
strcatpd p s array = strcatpc p s (length s - 1) array

-- `_tolower(_c)`: `_c | 0x20` sets bit 5
unfoldable pub to_lower : ℕ → ℕ
to_lower c = if within b'A' b'Z' c then if c / 32 % 2 == 0 then c + 32 else c else c

-- `_toupper(_c)`: `_c & ~0x20` clears bit 5
unfoldable pub to_upper : ℕ → ℕ
to_upper c = if within b'a' b'z' c then if c / 32 % 2 == 1 then c - 32 else c else c

take-front : (xs ys : Bytes) → take (length xs) (xs ++ ys) ≡ xs
take-front [] ys = refl
take-front (x ∷ xs) ys = ap (◌∷◌ x) (take-front xs ys)

drop-behind : (xs ys : Bytes) (n : ℕ) → drop (length xs + n) (xs ++ ys) ≡ drop n ys
drop-behind [] ys n = let at : 0 + n ≡ n = omega arith in ap (λ k. drop k ys) at
drop-behind (x ∷ xs) ys n =
    let at : suc (length xs) + n ≡ suc (length xs + n) = omega arith in
    ap (λ k. drop k (x ∷ xs ++ ys)) at ∙ drop-behind xs ys n

drop-drop : (n k : ℕ) (xs : Bytes) → drop k (drop n xs) ≡ drop (n + k) xs
drop-drop zero k xs = let at : k ≡ 0 + k = omega arith in ap (λ i. drop i xs) at
drop-drop (suc n) zero [] = let at : suc n ≡ suc n + 0 = omega arith in ap (λ i. drop i []) at
drop-drop (suc n) (suc k) [] =
    let at : suc (n + suc k) ≡ suc n + suc k = omega arith in ap (λ (i : ℕ). drop i []) at
drop-drop (suc n) k (x ∷ xs) =
    let at : suc (n + k) ≡ suc n + k = omega arith in
    drop-drop n k xs ∙ ap (λ i. drop i (x ∷ xs)) at

length-drop : (n : ℕ) (xs : Bytes) → n ≤ length xs → length (drop n xs) + n ≡ length xs
length-drop zero xs h = omega arith
length-drop (suc n) [] h = absurd (omega (arith, h))
length-drop (suc n) (x ∷ xs) h =
    let rest = length-drop n xs (omega (arith, h)) in omega (arith, rest)

-- one string, in front of what is left of the array
strcatpd-some :
    (s front room : Bytes)
    → length s ≤ length room
    → strcatpd (length front) (s ++ (0 ∷ [])) (front ++ room)
      ≡ some (length (front ++ s), (front ++ s) ++ drop (length s) room)
unfolding strcatpd
strcatpd-some s front room h =
    let size : length (s ++ (0 ∷ [])) - 1 ≡ length s = omega (arith, length-append s (0 ∷ [])) in
    let whole : leb (length s) (length (s ++ (0 ∷ []))) ≡ true =
      ground (arith, length-append s (0 ∷ [])) in
    let fits : leb (length front + length s) (length (front ++ room)) ≡ true =
      ground (arith, h, length-append front room) in
    rw size (
      rw (whole, fits)
        (rw
          (
            take-front front room,
            take-front s (0 ∷ []),
            drop-behind front room (length s),
            append_assoc front s (drop (length s) room),
            length-append front s,
          )
          refl))

-- `strcatpd` of one string after the other
unfoldable pub strcatpd_all : List Bytes → ℕ → Bytes → Option (ℕ × Bytes)
strcatpd_all [] p array = some (p, array)
strcatpd_all (s ∷ xs) p array = elim (strcatpd p (s ++ (0 ∷ [])) array) [
  | none ↦ none
  | some r ↦ strcatpd_all xs r.0 r.1
]

abbrev pub concat : List Bytes → Bytes
concat [] = []
concat (s ∷ xs) = s ++ concat xs

-- Strings that fit into an array behind `_p`, put there by `strcatpd` one after the other, stand there as
-- one string with `_p` behind it, and no other byte of the array changes.
pub strcatpd_all-concat :
    (xs : List Bytes) (front room : Bytes)
    → length (concat xs) ≤ length room
    → strcatpd_all xs (length front) (front ++ room)
      ≡ some (length (front ++ concat xs), front ++ concat xs ++ drop (length (concat xs)) room)
unfolding strcatpd_all
strcatpd_all-concat [] front room h = rw (append-nil front) refl
strcatpd_all-concat (s ∷ xs) front room h =
    let total = length-append s (concat xs) in
    let fits : length s ≤ length room = omega (arith, total, h) in
    let left = length-drop (length s) room fits in
    let next =
      strcatpd_all-concat xs (front ++ s) (drop (length s) room) (omega (arith, total, h, left)) in
    let more = drop (length (concat xs)) (drop (length s) room) in
    ap (λ (o : Option (ℕ × Bytes)). elim o [ none ↦ none | some r ↦ strcatpd_all xs r.0 r.1 ])
      (strcatpd-some s front room fits)
    ∙ next
    ∙ ap (λ x. some (length x, x ++ more)) (append_assoc front s (concat xs))
    ∙ ap (λ x. some (length (front ++ (s ++ concat xs)), front ++ (s ++ concat xs) ++ x))
        (drop-drop (length s) (length (concat xs)) room ∙ ap (λ n. drop n room) (sym total))

-- `_toupper` gives back a letter that `_tolower` made small, and the other way round.
pub to_upper-to_lower :
    (c : ℕ)
    → ((65 ≤ c) → (c ≤ 90) → to_upper (to_lower c) ≡ c)
      × ((97 ≤ c) → (c ≤ 122) → to_lower (to_upper c) ≡ c)
unfolding to_lower to_upper
to_upper-to_lower c = (λ h k. ground (arith, h, k), λ h k. ground (arith, h, k))
