-- ===== src/Logger/Lines.antt =====
-- The line that src/logger.c builds on the stack, and its bounds.
use libhelp.Base.{
  ◌+◌, ◌-◌, ◌≤◌, ◌<◌, ◌≡◌, refl, ap, ◌∙◌, arith, some, [], ◌∷◌, ◌++◌, Bytes, ltb, length, take,
  take-length-le, le→ltb, lt→leb, le→leb, Bool-cases, inl, inr,
}
use libhelp.Logger.{built, overflow, format_line, log_str_size, snprintf}

-- a line that fits is built whole
pub format_line-fits :
    (h m : Bytes)
    → length h + length m < log_str_size
    → format_line h (some m) ≡ built (h ++ (m ++ (b'\n' ∷ [])))
unfolding format_line
format_line-fits h m fits =
    let whole : take (length h) (snprintf log_str_size h) ≡ h =
      ap (take (length h)) (take-length-le (log_str_size - 1) h (omega (arith, fits)))
      ∙ take-length-le (length h) h (omega arith) in
    let rest : snprintf (log_str_size - length h) m ≡ m =
      take-length-le (log_str_size - length h - 1) m (omega (arith, fits)) in
    rw (le→ltb log_str_size (length h) (omega (arith, fits))) (
      rw (lt→leb log_str_size (length h + length m) fits) (
        ap (λ b. built (b ++ (snprintf (log_str_size - length h) m ++ (b'\n' ∷ [])))) whole
        ∙ ap (λ b. built (h ++ (b ++ (b'\n' ∷ [])))) rest))

-- a line that does not fit is built past the end of the array
pub format_line-overflow :
    (h m : Bytes) → log_str_size ≤ length h + length m → format_line h (some m) ≡ overflow
unfolding format_line
format_line-overflow h m over = elim (Bool-cases (ltb log_str_size (length h))) [
  | inl p ↦ rw p refl
  | inr p ↦ rw p (rw (le→leb log_str_size (length h + length m) over) refl)
]
