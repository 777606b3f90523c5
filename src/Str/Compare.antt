-- ===== src/Str/Compare.antt =====
-- `strcmp2` to `strcmp11` of src/str.h. A memory is its bytes; reading behind them is `none`.
use libhelp.Base.{
  ℕ, zero, suc, ◌+◌, ◌≤◌, ◌≡◌, refl, ap, ◌∙◌, arith, Bool, true, false, inl, inr, Option, none,
  some, [], ◌∷◌, ◌++◌, Bytes, NulFree, All, subst, ◌⊎◌, get_elem?, length, drop, take, starts_with,
  ◌==◌, if◌then◌else◌,
}

-- a comparison of what two reads give, and what is behind `&&`
abbrev pub and_then : Option ℕ → Option ℕ → Option Bool → Option Bool
and_then none d further = none
and_then (some a) none further = none
and_then (some a) (some b) further = if a == b then further else some false

-- the last `n` comparisons, from the one of `_d[i]`
unfoldable pub compare_from : ℕ → ℕ → ℕ → Bytes → Bytes → Option Bool
compare_from i zero off s d = some true
compare_from i (suc n) off s d =
    and_then (get_elem? s (off + i)) (get_elem? d i) (compare_from (i + 1) n off s d)

-- `strcmpN(_off, _s, _d)` for an N from 2 to 11
unfoldable pub strcmp_n : ℕ → ℕ → Bytes → Bytes → Option Bool
unfolding compare_from
strcmp_n n off s d = compare_from 0 n off s d

-- what a read of a C string and its NUL gives: the next byte, or the NUL
abbrev next_byte : Bytes → ℕ
next_byte [] = 0
next_byte (c ∷ cs) = c

read_string :
    (i : ℕ) (s : Bytes) → i ≤ length s → get_elem? (s ++ (0 ∷ [])) i ≡ some (next_byte (drop i s))
read_string zero [] h = refl
read_string zero (c ∷ s) h = refl
read_string (suc i) [] h = absurd (omega (arith, h))
read_string (suc i) (c ∷ s) h = read_string i s (omega (arith, h))

drop-NulFree : (i : ℕ) (s : Bytes) → NulFree s → NulFree (drop i s)
drop-NulFree zero s h = h
drop-NulFree (suc i) [] h = tt
drop-NulFree (suc i) (c ∷ s) h = drop-NulFree i s h.1

-- what is left of a string behind one more byte
record Splits (i : ℕ) (s : Bytes) : Type 0 where
  byte : ℕ
  rest : Bytes
  here : drop i s ≡ byte ∷ rest
  behind : drop (suc i) s ≡ rest
  room : i + 1 ≤ length s

split_at : (i : ℕ) (s : Bytes) → i ≤ length s → (drop i s ≡ []) ⊎ Splits i s
split_at zero [] h = inl refl
split_at zero (c ∷ s) h =
    inr (record { byte = c; rest = s; here = refl; behind = refl; room = omega arith })
split_at (suc i) [] h = inl refl
split_at (suc i) (c ∷ s) h = elim (split_at i s (omega (arith, h))) [
  | inl e ↦ inl e
  | inr p ↦ inr (record {
    byte = p.byte;
    rest = p.rest;
    here = p.here;
    behind = p.behind;
    room = omega (arith, p.room);
  })
]

empty_at : (i : ℕ) (s : Bytes) → drop i s ≡ [] → length s ≤ i
empty_at zero [] e = omega arith
empty_at zero (c ∷ s) e = absurd (cc e)
empty_at (suc i) [] e = omega arith
empty_at (suc i) (c ∷ s) e = let rest = empty_at i s e in omega (arith, rest)

-- the first comparison, and the others
one_byte :
    (a b : ℕ) (x y : Bytes) (n : ℕ)
    → and_then (some a) (some b) (some (starts_with (take n y) x))
      ≡ some (starts_with (take (suc n) (b ∷ y)) (a ∷ x))
unfolding starts_with
one_byte a b x y n = ground arith

compare_from-starts_with :
    (n i off : ℕ) (s d : Bytes)
    → off + i ≤ length s
    → i + n ≤ length d
    → NulFree s
    → NulFree d
    → compare_from i n off (s ++ (0 ∷ [])) (d ++ (0 ∷ []))
      ≡ some (starts_with (take n (drop i d)) (drop (off + i) s))
unfolding compare_from starts_with
compare_from-starts_with zero i off s d h k free free' = refl
compare_from-starts_with (suc n) i off s d h k free free' =
    let read_s = read_string (off + i) s h in
    let read_d = read_string i d (omega (arith, k)) in
    elim (split_at i d (omega (arith, k))) [
      | inl e ↦ let past = empty_at i d e in absurd (omega (arith, past, k))
      | inr p ↦ elim (split_at (off + i) s h) [
        | inl e ↦
            let not_nul : All (λ c. (c == 0) ≡ false) (p.byte ∷ p.rest) =
              subst NulFree p.here (drop-NulFree i d free') in
            let differ : (0 == p.byte) ≡ false = ground (arith, not_nul.0) in
            rw (read_s, read_d, e, p.here) (rw differ refl)
        | inr q ↦
            let next =
              compare_from-starts_with n (i + 1) off s d (omega (arith, q.room)) (omega (arith, k))
                free free' in
            let at : off + (i + 1) ≡ suc (off + i) = omega arith in
            let at_d : i + 1 ≡ suc i = omega arith in
            let next' : compare_from (i + 1) n off (s ++ (0 ∷ [])) (d ++ (0 ∷ []))
                ≡ some (starts_with (take n p.rest) q.rest) =
              next
              ∙ ap (λ x. some (starts_with (take n (drop x d)) (drop (off + (i + 1)) s))) at_d
              ∙ ap (λ x. some (starts_with (take n x) (drop (off + (i + 1)) s))) p.behind
              ∙ ap (λ x. some (starts_with (take n p.rest) (drop x s))) at
              ∙ ap (λ x. some (starts_with (take n p.rest) x)) q.behind in
            rw (read_s, read_d, q.here, p.here) (rw next' (one_byte q.byte p.byte q.rest p.rest n))
      ]
    ]

-- On C strings with their NULs, `strcmpN(off, s, d)` reads no byte behind them when `off` is in `s` or at its
-- NUL and `d` has N bytes, and it tells whether `s` goes on from `off` with the first N bytes of `d`.
pub strcmp_n-starts_with :
    (n off : ℕ) (s d : Bytes)
    → off ≤ length s
    → n ≤ length d
    → NulFree s
    → NulFree d
    → strcmp_n n off (s ++ (0 ∷ [])) (d ++ (0 ∷ [])) ≡ some (starts_with (take n d) (drop off s))
unfolding strcmp_n
strcmp_n-starts_with n off s d h k free free' =
    let at : off + 0 ≡ off = omega arith in
    compare_from-starts_with n 0 off s d (omega (arith, h)) (omega (arith, k)) free free'
    ∙ ap (λ x. some (starts_with (take n d) (drop x s))) at
