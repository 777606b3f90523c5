-- ===== src/Pool.antt =====
-- src/pool.c, the arena allocator, with the macros of src/pool.h. The heap is a parameter. A block
-- stands at its address, with the fields of its `pool_t` that are used; the first block is the pool,
-- whose `cur` is the place of a block in the list of `next`, and whose `large` list has the address
-- of each node and of its data. Pointers are 64-bit words.
pub mod Scan
pub mod Blocks
pub mod Grown
pub mod Apart
pub mod Alloc
pub mod Serve
pub mod Tiny
pub mod Accounts
pub mod Lifetime
pub mod Free
pub mod Memory
pub mod Strings
mod Tests
use libhelp.Base.{
  ℕ, zero, suc, ◌+◌, ◌-◌, ◌*◌, ◌/◌, ◌%◌, ◌^◌, Bool, true, false, ◌&&◌, Option, none, some, List, [],
  ◌∷◌, ◌++◌, Bytes, leb, ltb, ◌==◌, if◌then◌else◌, length, set, drop, get_elem?, replicate, word,
  sub64,
}

-- `malloc`, `free` and stores, of the C library
pub record Malloc : Type 1 where
  pub Heap : Type 0
  pub malloc : Heap → ℕ → Option ℕ × Heap
  pub free : Heap → ℕ → Heap
  -- `memcpy` or `memset` to an address
  pub write : Heap → ℕ → Bytes → Heap

abbrev pub alignment : ℕ
alignment = 8

abbrev pub pool_alloc_max : ℕ
pool_alloc_max = 4095

-- `sizeof(pool_t)` and `sizeof(pool_large_t)`
abbrev pub sizeof_pool : ℕ
sizeof_pool = 56

abbrev pub sizeof_large : ℕ
sizeof_large = 16

-- `align_ptr(p)`
unfoldable pub align_ptr : ℕ → ℕ
align_ptr p = (p + (alignment - 1)) % word / alignment * alignment

pub record Block : Type 0 where
  pub base : ℕ
  pub last : ℕ
  pub end : ℕ
  pub rmd : ℕ

pub record Pool : Type 0 where
  pub blocks : List Block
  pub cur : ℕ
  pub size : ℕ
  pub large : List (ℕ × ℕ)

-- What the loop of `pool_alloc` finds: a block with room, the address in it and `pool->cur`; or the
-- last block, `pool->cur`, and `c`, which may be `NULL`.
pub data Found : Type 0 where
  fits : ℕ → ℕ → ℕ → Found
  full : Block → ℕ → Option ℕ → Found

abbrev pub room : Block → ℕ
room b = sub64 b.end (align_ptr b.last)

-- `for (;;)`, at the block of index `i`. `pool->cur` is `c` whenever a round begins.
unfoldable pub scan : ℕ → ℕ → ℕ → Block → List Block → Found
scan size i c b [] =
    if leb size (room b)
    then fits i (align_ptr b.last) c
    else full b c (if ltb (room b) b.rmd then none else some c)
scan size i c b (d ∷ rest) =
    let further = scan size (i + 1) (if ltb (room b) b.rmd then i + 1 else c) d rest in
    if leb size (room b) then fits i (align_ptr b.last) c else further

pub data Made (m : Malloc) : Type 0 where
  made : Block → m.Heap → Made m
  no_memory : m.Heap → Made m
  undefined : Made m

-- What `pool_alloc` returns, with the pool that it leaves.
pub data Allocated (m : Malloc) : Type 0 where
  ok : Option ℕ → Pool → m.Heap → Allocated m
  undefined : Allocated m
  out_of_fuel : Allocated m

-- `p->last = last` for the block of index `i`
unfoldable pub set_last : List Block → ℕ → ℕ → List Block
set_last [] i last = []
set_last (b ∷ bs) zero last = record b { last = last } ∷ bs
set_last (b ∷ bs) (suc i) last = b ∷ set_last bs i last

-- `c ? c : n`, where `n` is the index of the new block
abbrev pub or_new : Option ℕ → ℕ → ℕ
or_new none n = n
or_new (some c) n = c

-- `size <= POOL_ALLOC_MAX && size <= pool->end - pool - align_ptr(sizeof(pool_t))`
-- for the blocks of a pool, of which the first is the pool
unfoldable pub is_small : List Block → ℕ → Bool
is_small [] size = false
is_small (b ∷ rest) size =
    leb size pool_alloc_max && leb size (sub64 (sub64 b.end b.base) (align_ptr sizeof_pool))

module _ {m : Malloc} where
  -- The first `pool_t` of a pool, or one more. The test `size < 0` is on a `size_t`; with less than
  -- `sizeof(pool_t)` bytes the stores to the fields are out of bounds.
  unfoldable pub new_block : m.Heap → ℕ → ℕ → Made m
  new_block heap size rmd =
      if ltb size 0
      then no_memory heap
      else (let (p, heap') = m.malloc heap size in
          elim p [
            | none ↦ no_memory heap'
            | some base ↦
                if ltb size sizeof_pool
                then Made.undefined
                else made
                    (record {
                      base = base;
                      last = base + sizeof_pool;
                      end = base + size;
                      rmd = if ltb rmd alignment then alignment else rmd;
                    })
                    heap'
          ])

  abbrev pub pool_of : ℕ → Made m → Allocated m
  pool_of size (made b heap) =
      ok (some b.base) (record { blocks = b ∷ []; cur = 0; size = size; large = [] }) heap
  pool_of size (no_memory heap) =
      ok none (record { blocks = []; cur = 0; size = 0; large = [] }) heap
  pool_of size Made.undefined = Allocated.undefined

  -- the address of the pool, or `none` for `NULL`
  unfoldable pub pool_new : m.Heap → ℕ → ℕ → Allocated m
  unfolding new_block
  pool_new heap size rmd = pool_of size (new_block heap size rmd)

  -- the new block behind a full one
  abbrev pub append_block : Pool → ℕ → ℕ → Option ℕ → ℕ → Made m → Allocated m
  append_block pool size cur c span (made n heap) =
      let at = align_ptr n.last in
      ok (some at)
        (record pool {
          blocks = pool.blocks ++ (record n { last = at + size } ∷ []);
          cur = or_new c (length pool.blocks);
          size = pool.size + span;
        })
        heap
  append_block pool size cur c span (no_memory heap) = ok none (record pool { cur = cur }) heap
  append_block pool size cur c span Made.undefined = Allocated.undefined

  abbrev pub place : m.Heap → Pool → ℕ → Found → Allocated m
  place heap pool size (fits i at cur) =
      ok (some at) (record pool { blocks = set_last pool.blocks i (at + size); cur = cur }) heap
  place heap pool size (full b cur c) =
      let span = sub64 b.end b.base in append_block pool size cur c span (new_block heap span b.rmd)

  -- the loop from `pool->cur`, and what follows it
  unfoldable pub alloc_small : m.Heap → Pool → ℕ → Allocated m
  unfolding scan new_block set_last
  alloc_small heap pool size = elim (drop pool.cur pool.blocks) [
    | [] ↦ Allocated.undefined
    | b ∷ rest ↦ place heap pool size (scan size pool.cur pool.cur b rest)
  ]

  -- after the node for the data at `p` was asked for
  abbrev pub link_large : ℕ → ℕ → Allocated m → Allocated m
  link_large p size (ok none pool heap) = ok none pool (m.free heap p)
  link_large p size (ok (some l) pool heap) =
      ok (some p) (record pool { large = (l, p) ∷ pool.large; size = pool.size + size }) heap
  link_large p size Allocated.undefined = Allocated.undefined
  link_large p size Allocated.out_of_fuel = Allocated.out_of_fuel

  -- `fuel` bounds the calls that wait for one another
  unfoldable pub pool_alloc : ℕ → m.Heap → Pool → ℕ → Allocated m
  unfolding alloc_small is_small align_ptr sub64
  pool_alloc zero heap pool size = Allocated.out_of_fuel
  pool_alloc (suc fuel) heap pool size =
      let (p, heap') = m.malloc heap size in
      let large : Allocated m = elim p [
        | none ↦ ok none pool heap'
        | some at ↦ link_large at size (pool_alloc fuel heap' pool sizeof_large)
      ] in
      if is_small pool.blocks size then alloc_small heap pool size else large

  -- the store of some bytes at what was allocated
  abbrev pub filled : Bytes → Allocated m → Allocated m
  filled bytes (ok none pool heap) = ok none pool heap
  filled bytes (ok (some p) pool heap) = ok (some p) pool (m.write heap p bytes)
  filled bytes Allocated.undefined = Allocated.undefined
  filled bytes Allocated.out_of_fuel = Allocated.out_of_fuel

  unfoldable pub pool_calloc : ℕ → m.Heap → Pool → ℕ → Allocated m
  unfolding pool_alloc
  pool_calloc fuel heap pool size = filled (replicate size 0) (pool_alloc fuel heap pool size)

  -- `bytes` are the `size` bytes at `p`
  unfoldable pub pool_cpy : ℕ → m.Heap → Pool → Bytes → Allocated m
  unfolding pool_alloc
  pool_cpy fuel heap pool bytes = filled bytes (pool_alloc fuel heap pool (length bytes))

module _ (m : Malloc) where
  free_large : List (ℕ × ℕ) → m.Heap → m.Heap
  free_large [] heap = heap
  free_large ((l, p) ∷ rest) heap = free_large rest (if p == 0 then heap else m.free heap p)

  free_blocks : List Block → m.Heap → m.Heap
  free_blocks [] heap = heap
  free_blocks (b ∷ rest) heap = free_blocks rest (m.free heap b.base)

  -- `none` is `NULL`
  unfoldable pub pool_delete : m.Heap → Option Pool → m.Heap
  unfolding free_large free_blocks
  pool_delete heap none = heap
  pool_delete heap (some pool) = free_blocks pool.blocks (free_large pool.large heap)

-- `pool_free`: only the last allocation of the current block is taken back
unfoldable pub pool_free : Pool → ℕ → ℕ → Pool
unfolding set_last
pool_free pool p size = elim (get_elem? pool.blocks pool.cur) [
  | none ↦ pool
  | some b ↦
      if b.last == p + size then record pool { blocks = set_last pool.blocks pool.cur p } else pool
]
