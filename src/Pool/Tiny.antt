-- ===== src/Pool/Tiny.antt =====
-- A pool of src/pool.c that is too small for a node of its `large` list.
use libhelp.Base.{
  ℕ, zero, suc, ◌+◌, ◌<◌, ◌≤◌, ◌≡◌, refl, false, some, List, ◌∷◌, arith, word, sub64,
}
use libhelp.Pool.{
  Malloc, Block, Pool, Allocated, is_small, pool_alloc, sizeof_pool, sizeof_large, align_ptr,
}

not_small_large :
    (b : Block) (rest : List Block) {span : ℕ} (size : ℕ)
    → b.end ≡ b.base + span
    → b.end < word
    → sizeof_pool ≤ span
    → span < size + sizeof_pool
    → is_small (b ∷ rest) size ≡ false
unfolding is_small align_ptr sub64
not_small_large b rest size e h lo hi = ground arith

module _ {m : Malloc}
    (full : (heap : m.Heap) (n : ℕ) → (p : ℕ) × ((m.malloc heap n).0 ≡ some p)) where
  -- In a pool made with at least 56 and fewer than 72 bytes, an allocation that its block cannot hold
  -- calls itself for ever as long as `malloc` succeeds: no number of nested calls is enough.
  pub pool_alloc-Tiny :
      (fuel : ℕ) (heap : m.Heap) (pool : Pool) (b : Block) (rest : List Block) (span size : ℕ)
      → pool.blocks ≡ b ∷ rest
      → b.end ≡ b.base + span
      → b.end < word
      → sizeof_pool ≤ span
      → span < sizeof_pool + sizeof_large
      → span < size + sizeof_pool
      → pool_alloc {m = m} fuel heap pool size ≡ Allocated.out_of_fuel
  unfolding pool_alloc
  pool_alloc-Tiny zero heap pool b rest span size is e h lo tiny big = refl
  pool_alloc-Tiny (suc fuel) heap pool b rest span size is e h lo tiny big =
      let (p, given) = full heap size in
      let again =
        pool_alloc-Tiny fuel (m.malloc heap size).1 pool b rest span sizeof_large is e h lo tiny
          (omega arith) in
      rw (is, not_small_large b rest size e h lo big, given) (rw again refl)
