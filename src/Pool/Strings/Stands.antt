-- ===== src/Pool/Strings/Stands.antt =====
-- What the macros of src/str.h leave in a pool of src/pool.c.
use libhelp.Base.{
  ℕ, zero, suc, take, ◌+◌, ◌%◌, ◌≤◌, ◌<◌, ◌≡◌, refl, ap, subst, ◌∙◌, ◌⊎◌, inl, inr, none, some, [],
  ◌∷◌, ◌++◌, Bytes, arith, get_elem?, length, length-append, word,
}
use libhelp.Pool.{Malloc, Pool, Allocated, ok}
use libhelp.Pool.Blocks.{lt_of_get_elem?}
use libhelp.Pool.Memory.{IsAllocator, Good, Placed, Intact}
use libhelp.Pool.Memory.Large.{pool_alloc-Serves}
use libhelp.Pool.Memory.Small.{Serves}
use libhelp.Pool.Memory.Steps.{write-Good, write-Placed, write-Same}
use libhelp.Pool.Strings.{Layout, fill_str, alloc_str, pstr_cpy, pstr_dup, pstr_ncpy}

length-take : (n : ℕ) (xs : Bytes) → n ≤ length xs → length (take n xs) ≡ n
length-take zero xs h = refl
length-take (suc n) [] h = absurd (omega (arith, h))
length-take (suc n) (x ∷ xs) h = ap suc (length-take n xs (omega (arith, h)))

abbrev pub Stored : {m : Malloc} → IsAllocator m → m.Heap → ℕ → Bytes → Type 0
Stored laws h a bytes = (i b : ℕ) → get_elem? bytes i ≡ some b → laws.byte h (a + i) ≡ b

-- A string at `s`: its fields, which name its size and the address of the data, and behind them the
-- data, all in memory that the pool handed out.
pub record IsStr {m : Malloc} (laws : IsAllocator m) (str : Layout) (h : m.Heap) (pool : Pool)
    (s size : ℕ) (bytes : Bytes) : Type 0 where
  pub placed : Placed laws h pool s (str.sizeof_str + length bytes)
  pub fields_stand : Stored laws h s (str.fields size (s + str.sizeof_str))
  pub data_stands : Stored laws h (s + str.sizeof_str) bytes

-- `NULL`, or a string; and what the pool handed out before stays.
abbrev pub MakesStr :
    {m : Malloc} → IsAllocator m → Layout → ℕ → m.Heap → Pool → ℕ → Bytes → Allocated m → Type 0
MakesStr laws str span h pool size bytes (ok none pool' h') = Intact laws span h pool h' pool'
MakesStr laws str span h pool size bytes (ok (some s) pool' h') =
    Intact laws span h pool h' pool' × IsStr laws str h' pool' s size bytes
MakesStr laws str span h pool size bytes Allocated.undefined = ⊥
MakesStr laws str span h pool size bytes Allocated.out_of_fuel = ⊥

module _ {m : Malloc} (laws : IsAllocator m) (str : Layout) (span : ℕ) (h : m.Heap)
    (pool : Pool) where
  fill_str-MakesStr :
      (size : ℕ) (bytes : Bytes) (r : Allocated m)
      → Serves laws span h pool (str.sizeof_str + length bytes) r
      → MakesStr laws str span h pool size bytes (fill_str str size 0 bytes r)
  fill_str-MakesStr size bytes (ok none pool' h') (i, kept) = i
  fill_str-MakesStr size bytes (ok (some s) pool' h') (i, kept, placed, apart) =
      let at = s + str.sizeof_str in
      let head = str.fields size at in
      let h1 = m.write h' s head in
      let h2 = m.write h1 (at + 0) bytes in
      let good1 = write-Good laws h' pool' i.good s head in
      let long = str.length-fields size at in
      let beside : (a n : ℕ)
          → (a + n ≤ s) ⊎ (s + (str.sizeof_str + length bytes) ≤ a)
          → ((a + n ≤ s) ⊎ (s + length head ≤ a))
            × ((a + n ≤ at + 0) ⊎ (at + 0 + length bytes ≤ a)) =
        λ a n x. elim x [
          | inl before ↦ (inl before, inl (omega (arith, before)))
          | inr behind ↦ (inr (omega (arith, behind, long)), inr (omega (arith, behind)))
        ] in
      (
        record {
          good = write-Good laws h1 pool' good1 (at + 0) bytes;
          placed = λ a n p.
              let (p', same) = i.placed a n p in
              (
                write-Placed laws h1 pool' good1 (at + 0) bytes a n
                    (write-Placed laws h' pool' i.good s head a n p'),
                λ k lt.
                    write-Same laws h1 pool' good1 (at + 0) bytes a n (beside a n (apart a n p)).1 k
                      lt
                    ∙ write-Same laws h' pool' i.good s head a n (beside a n (apart a n p)).0 k lt
                    ∙ same k lt,
              );
        },
        record {
          placed =
              write-Placed laws h1 pool' good1 (at + 0) bytes s (str.sizeof_str + length bytes)
                (write-Placed laws h' pool' i.good s head s (str.sizeof_str + length bytes) placed);
          fields_stand = λ k b e.
              laws.write_else h1 (at + 0) bytes (s + k)
                (inl (omega (arith, lt_of_get_elem? head k e, long)))
              ∙ laws.write_at h' s head k b e;
          data_stands = λ k b e.
              subst (λ x. laws.byte h2 x ≡ b) (omega arith) (laws.write_at h1 (at + 0) bytes k b e);
        },
      )
  fill_str-MakesStr size bytes Allocated.undefined s = s
  fill_str-MakesStr size bytes Allocated.out_of_fuel s = s

  -- so many bytes with the ones behind them
  of_size :
      (good : Good laws span h pool) (fuel size : ℕ) (bytes : Bytes)
      → length bytes ≡ size + 1
      → str.sizeof_str + size + 1 < word
      → MakesStr laws str span h pool size bytes
          (fill_str str size 0 bytes (alloc_str {m = m} str (suc (suc fuel)) h pool size))
  of_size good fuel size bytes long small =
      let whole : (str.sizeof_str + size + 1) % word ≡ str.sizeof_str + length bytes =
        omega (arith, long, small) in
      fill_str-MakesStr size bytes (alloc_str {m = m} str (suc (suc fuel)) h pool size)
        (rw whole (pool_alloc-Serves laws h pool good fuel (str.sizeof_str + length bytes)))

  -- In a pool in order, whose blocks and large data `malloc` returned, and for sizes whose sum is a
  -- `size_t`: `pstr_cpy`, `pstr_dup` and `pstr_ncpy` return `NULL` or a string whose fields and data stand
  -- in memory that the pool handed out, and what was handed out before keeps its bytes. The data is the
  -- C string with its NUL, the `size + 1` bytes of the other string, and the first `n + 1` bytes of the
  -- given ones.
  pub pstr-MakesStr :
      (fuel n size : ℕ) (c bytes more : Bytes)
      → Good laws span h pool
      → str.sizeof_str + length c + 1 < word
      → length bytes ≡ size + 1
      → str.sizeof_str + size + 1 < word
      → n + 1 ≤ length more
      → str.sizeof_str + n + 1 < word
      → MakesStr laws str span h pool
          (length c)
          (c ++ (0 ∷ []))
          (pstr_cpy {m = m} str (suc (suc fuel)) h pool c)
        × MakesStr laws str span h pool size bytes
            (pstr_dup {m = m} str (suc (suc fuel)) h pool size bytes)
        × MakesStr laws str span h pool n
            (take (n + 1) more)
            (pstr_ncpy {m = m} str (suc (suc fuel)) h pool more n)
  unfolding pstr_cpy pstr_dup pstr_ncpy
  pstr-MakesStr fuel n size c bytes more good small long small' enough small'' = (
    of_size good fuel (length c) (c ++ (0 ∷ [])) (length-append c (0 ∷ [])) small,
    of_size good fuel size bytes long small',
    of_size good fuel n (take (n + 1) more) (length-take (n + 1) more enough) small'',
  )
