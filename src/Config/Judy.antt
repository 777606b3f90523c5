-- ===== src/Config/Judy.antt =====
-- What src/config.c uses of code outside the repository: a JudySL array (Judy.h) and the heap.
-- Both are parameters of the model; the laws are the documented behaviour of the Judy macros.
use libhelp.Base.{ℕ, ◌≡◌, Bool, true, Option, none, some, Bytes, bytes_eq, if◌then◌else◌}

-- The word in a slot: `NULL`, or the string in the pool that it points at.
abbrev pub Word : Type 0
Word = Option Bytes

-- the word of a new or an old slot: JSLI makes a slot with a zero word, and keeps an old one
abbrev pub slot : Option Word → Word
slot none = none
slot (some w) = w

pub record Judy : Type 1 where
  -- `Pvoid_t`
  pub Arr : Type 0
  -- the null pointer, which is the empty array
  pub null : Arr
  -- JSLG: the word in the slot of a key, if there is one
  pub get : Arr → Bytes → Option Word
  -- JSLI: the array with a slot for the key; `none` is PJERR
  pub ins : Arr → Bytes → Option Arr
  -- `*pw = w` through the slot of a key
  pub store : Arr → Bytes → Word → Arr
  -- JSLF: the first key that is not below the given one, and its word
  pub first : Arr → Bytes → Option (Bytes × Word)
  -- JSLN: the first key above the given one, and its word
  pub next : Arr → Bytes → Option (Bytes × Word)

-- The laws of JSLG, JSLI and of a store through the slot.
pub record IsMap (j : Judy) : Type 0 where
  pub get-null : (k : Bytes) → j.get j.null k ≡ none
  pub get-ins :
      (a b : j.Arr) (k i : Bytes)
      → j.ins a k ≡ some b
      → j.get b i ≡ (if bytes_eq k i then some (slot (j.get a k)) else j.get a i)
  pub get-store :
      (a : j.Arr) (k i : Bytes) (w : Word)
      → j.get (j.store a k w) i
        ≡ (if bytes_eq k i then (elim (j.get a k) [ none ↦ none | some _ ↦ some w ]) else j.get a i)

-- The heap of the process and the pool of the configuration.
pub record Memory : Type 1 where
  pub Heap : Type 0
  -- `malloc` or `calloc` of so many bytes: an address, or `none` for `NULL`
  pub alloc : Heap → ℕ → Option ℕ × Heap
  -- `realloc` of an address to so many bytes
  pub realloc : Heap → ℕ → ℕ → Option ℕ × Heap
  pub free : Heap → ℕ → Heap
  -- `pool_new(size, rmd)` and `pool_calloc` of a `config_t`: whether they succeed
  pub pool_new : Heap → ℕ → ℕ → Bool × Heap
  pub pool_calloc : Heap → Bool × Heap
  pub pool_delete : Heap → Heap
  -- `pool_cpy(config->pool, s, strlen(s) + 1)`: whether it succeeds
  pub cpy : Heap → Bytes → Bool × Heap

-- There is room for whatever is asked.
pub record IsPlentiful (j : Judy) (m : Memory) : Type 0 where
  pub ins_some : (a : j.Arr) (k : Bytes) → (b : j.Arr) × (j.ins a k ≡ some b)
  pub alloc_some : (h : m.Heap) (n : ℕ) → (p : ℕ) × ((m.alloc h n).0 ≡ some p)
  pub pool_new_true : (h : m.Heap) (size rmd : ℕ) → (m.pool_new h size rmd).0 ≡ true
  pub pool_calloc_true : (h : m.Heap) → (m.pool_calloc h).0 ≡ true
  pub cpy_true : (h : m.Heap) (s : Bytes) → (m.cpy h s).0 ≡ true
