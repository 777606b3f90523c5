-- ===== src/Pool/Memory/Sample.antt =====
-- A heap that meets the laws of Pool/Memory: addresses grow, nothing is reused, bytes are a function.
use libhelp.Base.{
  ℕ, zero, suc, ◌+◌, ◌-◌, ◌*◌, ◌/◌, ◌^◌, ◌≤◌, ◌≡◌, refl, inl, inr, some, none, [], ◌∷◌, Bytes,
  arith, ltb, get_or, get_elem?, length, if◌then◌else◌, le→ltb, lt→ltb, eq_of_some,
}
use libhelp.Pool.{Malloc}
use libhelp.Pool.Memory.{IsAllocator}

pub record Arena : Type 0 where
  pub next : ℕ
  pub at : ℕ → ℕ

abbrev rounded : ℕ → ℕ
rounded n = (n + 15) / 16 * 16

abbrev pub arena : Malloc
arena = record {
  Heap = Arena;
  malloc = λ h n.
      if ltb (rounded h.next + n) (2 ^ 62)
      then (some (rounded h.next), record h { next = rounded h.next + n })
      else (none, h);
  free = λ h p. h;
  write =
      λ h p bytes. record h { at = λ a. if ltb a p then h.at a else get_or bytes (a - p) (h.at a) };
}

get_or-some : (bytes : Bytes) (i d b : ℕ) → get_elem? bytes i ≡ some b → get_or bytes i d ≡ b
get_or-some [] i d b e = cc
get_or-some (x ∷ bytes) zero d b e = eq_of_some e
get_or-some (x ∷ bytes) (suc i) d b e = get_or-some bytes i d b e

get_or-ge : (bytes : Bytes) (i d : ℕ) → length bytes ≤ i → get_or bytes i d ≡ d
get_or-ge [] i d h = refl
get_or-ge (x ∷ bytes) zero d h = absurd (omega arith)
get_or-ge (x ∷ bytes) (suc i) d h = get_or-ge bytes i d (omega arith)

pub arena-IsAllocator : IsAllocator arena
arena-IsAllocator = record {
  Taken = λ h a n. a + n ≤ h.next;
  byte = λ h a. h.at a;
  aligned = λ h n p e. ground arith;
  below = λ h n p e. ground arith;
  taken = λ h n p e. ground arith;
  apart = λ h n p a k e t. inr (ground arith);
  malloc_taken = λ h n a k t. ground arith;
  malloc_byte = λ h n a k i t lt. ground arith;
  free_taken = λ h p a k ne t. t;
  free_byte = λ h p a k i ne t lt. refl;
  write_taken = λ h p bytes a k t. t;
  write_at = λ h p bytes i b e.
      let back : p + i - p ≡ i = omega arith in
      rw (le→ltb (p + i) p (omega arith)) (rw back (get_or-some bytes i (h.at (p + i)) b e));
  write_else = λ h p bytes a out. elim out [
    | inl before ↦ rw (lt→ltb a p before) refl
    | inr behind ↦
        rw (le→ltb a p (omega (arith, behind)))
          (get_or-ge bytes (a - p) (h.at a) (omega (arith, behind)))
  ];
}
