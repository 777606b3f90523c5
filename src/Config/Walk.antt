-- ===== src/Config/Walk.antt =====
-- The walk of the copy loop of src/config.c over the keys with a prefix: how many are still to come.
use libhelp.Base.{
  ℕ, ◌+◌, ◌≤◌, ◌<◌, ◌≡◌, ◌⊎◌, inl, inr, refl, sym, ap, ◌∙◌, arith, Bool, true, false, not, List, [],
  ◌∷◌, ◌++◌, Bytes, length, if◌then◌else◌,
}
use libhelp.Config.Order.{bytes_lt, bytes_lt_trans, bytes_lt_asym, bytes_ge_trans}

abbrev pub Has : Bytes → List Bytes → Type 0
Has s [] = ⊥
Has s (x ∷ xs) = (s ≡ x) ⊎ Has s xs

-- the keys behind a point of the walk
pub record IsUpward (name : Bytes) (pending : Bytes → Bool) : Type 0 where
  pub above : (i : Bytes) → pending i ≡ true → bytes_lt i name ≡ false
  pub upward : (i i' : Bytes) → pending i ≡ true → bytes_lt i i' ≡ true → pending i' ≡ true

pub from-IsUpward : (name : Bytes) → IsUpward name (λ i. not (bytes_lt i name))
from-IsUpward name = record {
  above = λ i h. ground (arith, h);
  upward = λ i i' h k.
      let low : bytes_lt i name ≡ false = ground (arith, h) in
      let here : bytes_lt i' name ≡ false = bytes_ge_trans i' i name (bytes_lt_asym i i' k) low in
      rw here refl;
}

pub behind-IsUpward :
    (name index : Bytes) → bytes_lt index name ≡ false → IsUpward name (bytes_lt index)
behind-IsUpward name index h = record {
  above = λ i k. bytes_ge_trans i index name (bytes_lt_asym index i k) h;
  upward = λ i i' k k'. bytes_lt_trans index i i' k k';
}

-- how many of the listed suffixes are still to come
abbrev pub left : Bytes → (Bytes → Bool) → List Bytes → ℕ
left name pending [] = 0
left name pending (s ∷ ks) = (if pending (name ++ s) then 1 else 0) + left name pending ks

pub left-le :
    (name : Bytes) (new old : Bytes → Bool) (ks : List Bytes)
    → ((i : Bytes) → new i ≡ true → old i ≡ true)
    → left name new ks ≤ left name old ks
left-le name new old [] h = omega arith
left-le name new old (s ∷ ks) h =
    let rest = left-le name new old ks h in let here = h (name ++ s) in ground (arith, rest, here)

pub left-lt :
    (name : Bytes) (new old : Bytes → Bool) (s : Bytes) (ks : List Bytes)
    → ((i : Bytes) → new i ≡ true → old i ≡ true)
    → Has s ks
    → old (name ++ s) ≡ true
    → new (name ++ s) ≡ false
    → left name new ks < left name old ks
left-lt name new old s [] h has was now = absurd has
left-lt name new old s (x ∷ ks) h (inl same) was now =
    let rest = left-le name new old ks h in
    let was' : old (name ++ x) ≡ true = ap (λ y. old (name ++ y)) (sym same) ∙ was in
    let now' : new (name ++ x) ≡ false = ap (λ y. new (name ++ y)) (sym same) ∙ now in
    rw (was', now') (omega (arith, rest))
left-lt name new old s (x ∷ ks) h (inr has) was now =
    let rest = left-lt name new old s ks h has was now in
    let here = h (name ++ x) in ground (arith, rest, here)

pub left-length :
    (name : Bytes) (pending : Bytes → Bool) (ks : List Bytes) → left name pending ks ≤ length ks
left-length name pending [] = omega arith
left-length name pending (s ∷ ks) = let rest = left-length name pending ks in ground (arith, rest)
