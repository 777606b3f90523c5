-- ===== src/Pool/Memory/Large.antt =====
-- `pool_alloc` of src/pool.c, of small and large sizes, in a heap with the laws of `malloc`.
use libhelp.Base.{
  ℕ, zero, suc, ◌+◌, ◌≤◌, ◌<◌, ◌≡◌, refl, inl, inr, false, true, none, some, arith, Bool-cases,
  Option-elim_eq,
}
use libhelp.Pool.{
  Malloc, Pool, Allocated, ok, is_small, link_large, pool_alloc, sizeof_pool, sizeof_large,
  pool_alloc_max,
}
use libhelp.Pool.Memory.{IsAllocator, Good, Intact, Intact-trans}
use libhelp.Pool.Memory.Small.{Serves, alloc_small-Serves}
use libhelp.Pool.Memory.Steps.{
  malloc-Intact, malloc-KeepsBuffers, malloc-Buffer, malloc-new, malloc-disjoint, free-Intact,
  free-KeepsBuffers, link-Good, link-Placed, link-new, link-KeepsBuffers,
}
use libhelp.Pool.Serve.{is_small_iff}

module _ {m : Malloc} (laws : IsAllocator m) {span : ℕ} (h : m.Heap) (pool : Pool)
    (good : Good laws span h pool) where
  pub small_sizes :
      (size : ℕ)
      → is_small pool.blocks size ≡ true
      → (size ≤ pool_alloc_max) × (size + sizeof_pool ≤ span)
  small_sizes size =
      (is_small_iff pool.blocks size good.inv.blocks (omega (arith, good.inv.cur_lt))).0

  some_size : (size : ℕ) → is_small pool.blocks size ≡ false → 0 < size
  some_size zero big =
      let small =
        (is_small_iff pool.blocks 0 good.inv.blocks (omega (arith, good.inv.cur_lt))).1
          (omega arith, omega (arith, good.inv.span_ge)) in
      absurd cc
  some_size (suc size) big = omega arith

  pub pool_alloc-small :
      (fuel size : ℕ)
      → is_small pool.blocks size ≡ true
      → Serves laws span h pool size (pool_alloc {m = m} (suc fuel) h pool size)
  unfolding pool_alloc
  pool_alloc-small fuel size small =
      rw small (alloc_small-Serves laws h pool good size (small_sizes size small).1)

  pub node_small : is_small pool.blocks sizeof_large ≡ true
  node_small =
      (is_small_iff pool.blocks sizeof_large good.inv.blocks (omega (arith, good.inv.cur_lt))).1
        (omega arith, omega (arith, good.inv.span_ge))

  module _ (size at : ℕ) (some_byte : 0 < size) (e : (m.malloc h size).0 ≡ some at) where
    asked : Intact laws span h pool (m.malloc h size).1 pool
    asked = malloc-Intact laws h pool good size

    linked :
        (r : Allocated m)
        → Serves laws span (m.malloc h size).1 pool sizeof_large r
        → Serves laws span h pool size (link_large at size r)
    linked (ok none pool' h') (i, kept) =
        let buffer = kept at size tt (malloc-Buffer laws h pool good size at some_byte e) in
        (
          Intact-trans laws (Intact-trans laws asked i)
              (free-Intact laws h' pool' i.good at size buffer),
          λ a n s b.
              free-KeepsBuffers laws h' pool' i.good at size buffer a n
                (malloc-new laws h pool good size at some_byte e a n b)
                (kept a n tt (malloc-KeepsBuffers laws h pool good size a n tt b)),
        )
    linked (ok (some l) pool' h') (i, kept, node, apart) =
        let buffer = kept at size tt (malloc-Buffer laws h pool good size at some_byte e) in
        (
          Intact-trans laws (Intact-trans laws asked i) (record {
            good = link-Good laws h' pool' i.good l at size (pool'.size + size) buffer;
            placed = λ a n p. (
              link-Placed laws h' pool' i.good l at size (pool'.size + size) buffer a n p,
              λ k lt. refl,
            );
          }),
          λ a n s b.
              link-KeepsBuffers laws h' pool' i.good l at size (pool'.size + size) buffer a n
                (malloc-new laws h pool good size at some_byte e a n b)
                (kept a n tt (malloc-KeepsBuffers laws h pool good size a n tt b)),
          link-new laws h' pool' i.good l at size (pool'.size + size) buffer,
          malloc-disjoint laws h pool good size at some_byte e,
        )
    linked Allocated.undefined x = x
    linked Allocated.out_of_fuel x = x

module _ {m : Malloc} (laws : IsAllocator m) {span : ℕ} (h : m.Heap) (pool : Pool)
    (good : Good laws span h pool) where
  -- two nested calls are enough for every size
  pub pool_alloc-Serves :
      (fuel size : ℕ)
      → Serves laws span h pool size (pool_alloc {m = m} (suc (suc fuel)) h pool size)
  unfolding pool_alloc
  pool_alloc-Serves fuel size = elim (Bool-cases (is_small pool.blocks size)) [
    | inl small ↦ pool_alloc-small laws h pool good (suc fuel) size small
    | inr big ↦ large big
  ]
    where
      large :
          is_small pool.blocks size ≡ false
          → Serves laws span h pool size (pool_alloc {m = m} (suc (suc fuel)) h pool size)
      large big = rw big (
          Option-elim_eq (Serves laws span h pool size) (m.malloc h size).0 _ _
            (λ e. (malloc-Intact laws h pool good size, malloc-KeepsBuffers laws h pool good size))
            (λ at e.
              let i = malloc-Intact laws h pool good size in
              linked laws h pool good size at (some_size laws h pool good size big) e
                (pool_alloc {m = m} (suc fuel) (m.malloc h size).1 pool sizeof_large)
                (pool_alloc-small laws (m.malloc h size).1 pool i.good fuel sizeof_large
                  (node_small laws h pool good))))
