-- ===== src/Messages/Text.antt =====
-- The text of a message: the string that a receiver reads out of a padded buffer.
use libhelp.Base.{
  NulFree, c_string-NulFree, take-length-le, ℕ, zero, suc, ◌+◌, ◌-◌, ◌≤◌, ◌≡◌, refl, ap, ◌∙◌, arith,
  List, [], ◌∷◌, ◌++◌, Bytes, length, take, replicate, le→leb,
}
use libhelp.Messages.Types.{message_size, pad, fill_text}

module _ {ℓ} {A : Type ℓ} where
  pub take-append :
      (n k : ℕ) (xs ys : List A) → n ≡ length xs + k → take n (xs ++ ys) ≡ xs ++ take k ys
  take-append n k [] ys h = let e : n ≡ k = omega (arith, h) in rw e refl
  take-append zero k (x ∷ xs) ys h = absurd (omega (arith, h))
  take-append (suc n) k (x ∷ xs) ys h = ap (◌∷◌ x) (take-append n k xs ys (omega (arith, h)))

  pub take-replicate : (n k : ℕ) (a : A) → n ≤ k → take n (replicate k a) ≡ replicate n a
  take-replicate zero k a h = refl
  take-replicate (suc n) zero a h = absurd (omega (arith, h))
  take-replicate (suc n) (suc k) a h = ap (◌∷◌ a) (take-replicate n k a (omega (arith, h)))

-- the first bytes of a padded buffer, more than the string
pub take-pad :
    (n size k : ℕ) (s : Bytes)
    → n ≡ length s + suc k
    → n ≤ size
    → take n (pad size s) ≡ s ++ (0 ∷ replicate k 0)
unfolding pad
take-pad n size k s e h =
    take-append n (suc k) s (replicate (size - length s) 0) e
    ∙ ap (s ++◌) (take-replicate (suc k) (size - length s) 0 (omega (arith, e, h)))

-- what `pm_send` fills in for a string that fits
pub fill_text-NulFree :
    (s : Bytes) → NulFree s → length s ≤ message_size → fill_text s (length s) ≡ pad message_size s
unfolding fill_text
fill_text-NulFree s h fits = rw (le→leb (length s) message_size fits) (
    ap (pad message_size)
      (ap (take (length s)) (c_string-NulFree s h) ∙ take-length-le (length s) s (omega arith)))

-- a string that leaves room for a NUL
pub pad-split :
    (size k : ℕ) (s : Bytes) → size ≡ length s + suc k → pad size s ≡ s ++ (0 ∷ replicate k 0)
unfolding pad
pad-split size k s e =
    let room : size - length s ≡ suc k = omega (arith, e) in ap (λ n. s ++ replicate n 0) room
