-- ===== src/Pool/Strings.antt =====
-- The macros of src/str.h that make a string in a pool: `pstr_new`, `pstr_dup`, `pstr_cpy` and
-- `pstr_ncpy`. The type `str_t` is not in the repository: its bytes for a size and an address of the
-- data are a parameter.
pub mod Stands
use libhelp.Base.{
  ℕ, ◌+◌, ◌-◌, ◌%◌, ◌≡◌, Option, none, some, [], ◌∷◌, ◌++◌, Bytes, length, take, word,
}
use libhelp.Pool.{Malloc, Pool, Allocated, ok, pool_alloc}

-- `str_t`, with `sizeof(str_t)`
pub record Layout : Type 0 where
  pub sizeof_str : ℕ
  pub fields : ℕ → ℕ → Bytes
  pub length-fields : (size at : ℕ) → length (fields size at) ≡ sizeof_str

module _ {m : Malloc} (str : Layout) where
  -- `_s->size = size; _s->data = (char *) _s + sizeof(str_t)`, and the bytes from `off` in the data
  abbrev pub fill_str : ℕ → ℕ → Bytes → Allocated m → Allocated m
  fill_str size off bytes (ok none pool heap) = ok none pool heap
  fill_str size off bytes (ok (some s) pool heap) =
      let at = s + str.sizeof_str in
      ok (some s) pool (m.write (m.write heap s (str.fields size at)) (at + off) bytes)
  fill_str size off bytes Allocated.undefined = Allocated.undefined
  fill_str size off bytes Allocated.out_of_fuel = Allocated.out_of_fuel

  -- `pool_alloc(_p, sizeof(str_t) + size + 1)`, a `size_t`
  abbrev pub alloc_str : ℕ → m.Heap → Pool → ℕ → Allocated m
  alloc_str fuel heap pool size = pool_alloc fuel heap pool ((str.sizeof_str + size + 1) % word)

  unfoldable pub pstr_new : ℕ → m.Heap → Pool → ℕ → Allocated m
  pstr_new fuel heap pool size = fill_str size size (0 ∷ []) (alloc_str fuel heap pool size)

  -- `bytes` are the `size + 1` bytes at `_s2->data`
  unfoldable pub pstr_dup : ℕ → m.Heap → Pool → ℕ → Bytes → Allocated m
  pstr_dup fuel heap pool size bytes = fill_str size 0 bytes (alloc_str fuel heap pool size)

  -- `c` is a C string, and so many bytes with the NUL
  unfoldable pub pstr_cpy : ℕ → m.Heap → Pool → Bytes → Allocated m
  pstr_cpy fuel heap pool c =
      fill_str (length c) 0 (c ++ (0 ∷ [])) (alloc_str fuel heap pool (length c))

  -- `bytes` are what stands at `_c`: the byte behind the first `n` is copied, whatever it is
  unfoldable pub pstr_ncpy : ℕ → m.Heap → Pool → Bytes → ℕ → Allocated m
  pstr_ncpy fuel heap pool bytes n = fill_str n 0 (take (n + 1) bytes) (alloc_str fuel heap pool n)
