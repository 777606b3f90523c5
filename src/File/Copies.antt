-- ===== src/File/Copies.antt =====
-- The result of `file_copy` in src/file.c.
use libhelp.Base.{
  ℕ, suc, arith, some, get_elem?, ◌+◌, ◌≡◌, refl, sym, ap, ◌∙◌, true, false, Bool-cases, inl, inr,
  List, [], ◌∷◌, ◌++◌, append-nil, append_assoc, Bytes, ◌==◌, ==_iff, length, pos, negsuc,
}
use libhelp.File.{Calls, Copy, copy_rounds, file_copy}

abbrev pub all_bytes : List Bytes → Bytes
all_bytes [] = []
all_bytes (b ∷ rest) = b ++ all_bytes rest

copy_rounds-Written :
    (writes : ℕ → ℕ) (n : ℕ) (reads : List Bytes) (target : Bytes)
    → (copy_rounds writes n reads target).0 ≡ true
    → (copy_rounds writes n reads target).1 ≡ target ++ all_bytes reads
unfolding copy_rounds
copy_rounds-Written writes n [] target e = sym (append-nil target)
copy_rounds-Written writes n (buf ∷ rest) target e = elim (Bool-cases (writes n == length buf)) [
  | inl h ↦ rw h (
      copy_rounds-Written writes (n + 1) rest (target ++ buf) (rw h at e)
      ∙ append_assoc target buf (all_bytes rest))
  | inr h ↦ let short : false ≡ true = rw h at e in absurd cc
]

copy_rounds-whole :
    (writes : ℕ → ℕ) (n : ℕ) (reads : List Bytes) (target : Bytes)
    → ((i : ℕ) (b : Bytes) → get_elem? reads i ≡ some b → writes (n + i) ≡ length b)
    → (copy_rounds writes n reads target).0 ≡ true
unfolding copy_rounds
copy_rounds-whole writes n [] target h = refl
copy_rounds-whole writes n (buf ∷ rest) target h =
    let at : n + 0 ≡ n = omega arith in
    let full : writes n ≡ length buf = ap writes (sym at) ∙ h 0 buf refl in
    rw ((==_iff (writes n) (length buf)).1 full) (
      copy_rounds-whole writes (n + 1) rest (target ++ buf)
        (λ i b e. ap writes (later n i) ∙ h (suc i) b e))
  where
    later : (k i : ℕ) → k + 1 + i ≡ k + suc i
    later k i = omega arith

abbrev pub complete : Calls → Copy
complete calls = record {
  status = pos 0;
  target = all_bytes calls.reads;
  from_open = false;
  to_open = false;
}

-- When `file_copy` returns 0, the new file has all bytes that the `read`s returned, in order, and both
-- descriptors are closed.
pub file_copy-complete :
    (calls : Calls) (old : Bytes)
    → (file_copy calls old).status ≡ pos 0
    → file_copy calls old ≡ complete calls
unfolding file_copy
file_copy-complete calls old e = elim (Bool-cases calls.opens) [
  | inr h ↦ let failed : negsuc 0 ≡ pos 0 = rw h at e in absurd cc
  | inl h ↦ elim (Bool-cases calls.creates) [
    | inr k ↦ let failed : negsuc 0 ≡ pos 0 = rw k at (rw h at e) in absurd cc
    | inl k ↦ elim (Bool-cases (copy_rounds calls.writes 0 calls.reads []).0) [
      | inr w ↦ let failed : negsuc 0 ≡ pos 0 = rw w at (rw k at (rw h at e)) in absurd cc
      | inl w ↦ rw h (rw k (rw w (rw (copy_rounds-Written calls.writes 0 calls.reads [] w) refl)))
    ]
  ]
]

-- When both files are opened and each `write` takes what the `read` before it returned, `file_copy`
-- returns 0, with all bytes copied and both descriptors closed.
pub file_copy-succeeds :
    (calls : Calls) (old : Bytes)
    → calls.opens ≡ true
    → calls.creates ≡ true
    → ((i : ℕ) (b : Bytes) → get_elem? calls.reads i ≡ some b → calls.writes i ≡ length b)
    → file_copy calls old ≡ complete calls
unfolding file_copy
file_copy-succeeds calls old h k full =
    let zero_first : (i : ℕ) → 0 + i ≡ i = λ i. omega arith in
    let w =
      copy_rounds-whole calls.writes 0 calls.reads []
        (λ i b e. ap calls.writes (zero_first i) ∙ full i b e) in
    rw h (rw k (rw w (rw (copy_rounds-Written calls.writes 0 calls.reads [] w) refl)))
