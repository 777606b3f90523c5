-- ===== src/Pool/Blocks.antt =====
-- The list of blocks in src/pool.c, by index.
use libhelp.Base.{
  ℕ, zero, suc, ◌+◌, ◌≤◌, ◌≡◌, ◌≢◌, refl, ap, ◌⊎◌, inl, inr, some, List, [], ◌∷◌, ◌++◌, arith,
  length, get_elem?, drop,
}
use libhelp.Pool.{Block, set_last}

pub length-set_last : (bs : List Block) (i v : ℕ) → length (set_last bs i v) ≡ length bs
unfolding set_last
length-set_last [] i v = refl
length-set_last (b ∷ bs) zero v = refl
length-set_last (b ∷ bs) (suc i) v = ap suc (length-set_last bs i v)

pub get_elem?-set_last_self :
    (bs : List Block) (i v : ℕ) {b : Block}
    → get_elem? bs i ≡ some b
    → get_elem? (set_last bs i v) i ≡ some (record b { last = v })
unfolding set_last
get_elem?-set_last_self [] i v e = cc
get_elem?-set_last_self (b ∷ bs) zero v e = ground arith
get_elem?-set_last_self (b ∷ bs) (suc i) v e = get_elem?-set_last_self bs i v e

pub get_elem?-set_last_ne :
    (bs : List Block) (i k v : ℕ) → i ≢ k → get_elem? (set_last bs i v) k ≡ get_elem? bs k
unfolding set_last
get_elem?-set_last_ne [] i k v h = refl
get_elem?-set_last_ne (b ∷ bs) zero zero v h = absurd (h refl)
get_elem?-set_last_ne (b ∷ bs) zero (suc k) v h = refl
get_elem?-set_last_ne (b ∷ bs) (suc i) zero v h = refl
get_elem?-set_last_ne (b ∷ bs) (suc i) (suc k) v h =
    get_elem?-set_last_ne bs i k v (λ e. h (ap suc e))

module _ {ℓ} {A : Type ℓ} where
  pub get_elem?-append_some :
      (xs ys : List A) (k : ℕ) {a : A} → get_elem? xs k ≡ some a → get_elem? (xs ++ ys) k ≡ some a
  get_elem?-append_some [] ys k e = cc
  get_elem?-append_some (x ∷ xs) ys zero e = e
  get_elem?-append_some (x ∷ xs) ys (suc k) e = get_elem?-append_some xs ys k e

  pub get_elem?-append_length :
      (xs : List A) (a : A) → get_elem? (xs ++ (a ∷ [])) (length xs) ≡ some a
  get_elem?-append_length [] a = refl
  get_elem?-append_length (x ∷ xs) a = get_elem?-append_length xs a

  pub get_elem?-append_inv :
      (xs : List A) (a : A) (k : ℕ) {b : A}
      → get_elem? (xs ++ (a ∷ [])) k ≡ some b
      → (get_elem? xs k ≡ some b) ⊎ ((k ≡ length xs) × (b ≡ a))
  get_elem?-append_inv [] a zero e = inr (refl, cc)
  get_elem?-append_inv [] a (suc k) e = cc
  get_elem?-append_inv (x ∷ xs) a zero e = inl e
  get_elem?-append_inv (x ∷ xs) a (suc k) e = elim (get_elem?-append_inv xs a k e) [
    | inl h ↦ inl h
    | inr h ↦ inr (ap suc h.0, h.1)
  ]

  pub get_elem?-drop :
      (n : ℕ) (xs : List A) (o : ℕ) → get_elem? (drop n xs) o ≡ get_elem? xs (n + o)
  get_elem?-drop zero xs o = ap (get_elem? xs) (omega arith)
  get_elem?-drop (suc n) [] o = refl
  get_elem?-drop (suc n) (x ∷ xs) o =
      let e : suc n + o ≡ suc (n + o) = omega arith in rw e (get_elem?-drop n xs o)

  pub lt_of_get_elem? : (xs : List A) (k : ℕ) {a : A} → get_elem? xs k ≡ some a → suc k ≤ length xs
  lt_of_get_elem? [] k e = cc
  lt_of_get_elem? (x ∷ xs) zero e = omega arith
  lt_of_get_elem? (x ∷ xs) (suc k) e = omega (arith, lt_of_get_elem? xs k e)

  pub length-drop : (n : ℕ) (xs : List A) → n ≤ length xs → length (drop n xs) + n ≡ length xs
  length-drop zero xs h = omega arith
  length-drop (suc n) [] h = absurd (omega arith)
  length-drop (suc n) (x ∷ xs) h = omega (arith, length-drop n xs (omega arith))
