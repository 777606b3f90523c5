-- ===== src/Pool/Serve.antt =====
-- The contract of `pool_alloc` in src/pool.c, for small and for large sizes.
use libhelp.Base.{
  ℕ, suc, ◌+◌, ◌%◌, ◌≤◌, ◌<◌, ◌≡◌, refl, sym, ap, subst, ◌↔◌, ◌⊎◌, inl, inr, true, false, Option,
  none, some, List, [], ◌∷◌, arith, length, Option-elim_eq, Bool-cases, sub64,
}
use libhelp.Pool.{
  Malloc, Block, Pool, Allocated, ok, align_ptr, sizeof_pool, sizeof_large, alignment, is_small,
  link_large, pool_alloc, pool_alloc_max,
}
use libhelp.Pool.Alloc.{IsPool, IsFresh, Allocates, alloc_small-Allocates}
use libhelp.Pool.Apart.{Grown-AreBlocks}
use libhelp.Pool.Grown.{AreBlocks, Owned, Owned-new, Owned-mono, Owned-disjoint}

-- The pool after a call: in order, and all that was handed out before is still handed out.
pub record Keeps (span : ℕ) (pool pool' : Pool) : Type 0 where
  pub kept : IsPool span pool'
  pub still_owned : (a n : ℕ) → Owned pool.blocks a n → Owned pool'.blocks a n

-- `size` bytes at `at` are handed out: aligned, and with no byte in what was handed out before.
pub record Hands (span : ℕ) (pool : Pool) (size at : ℕ) (pool' : Pool) : Type 0 where
  pub keeps : Keeps span pool pool'
  pub same_large : pool'.large ≡ pool.large
  pub aligned : at % alignment ≡ 0
  pub owned : Owned pool'.blocks at size
  pub disjoint : (a n : ℕ) → Owned pool.blocks a n → (a + n ≤ at) ⊎ (at + size ≤ a)

-- The contract for a size that a block can hold.
abbrev pub ServesSmall : {m : Malloc} → ℕ → Pool → ℕ → Allocated m → Type 0
ServesSmall span pool size (ok none pool' heap) = Keeps span pool pool' × (pool'.large ≡ pool.large)
ServesSmall span pool size (ok (some at) pool' heap) = Hands span pool size at pool'
ServesSmall span pool size Allocated.undefined = ⊥
ServesSmall span pool size Allocated.out_of_fuel = ⊥

-- The contract for a larger one: the data is what `malloc` returned, and a new node links it.
abbrev pub ServesLarge : {m : Malloc} → ℕ → Pool → ℕ → Option ℕ → Allocated m → Type 0
ServesLarge span pool size data_at (ok none pool' heap) =
    Keeps span pool pool' × (pool'.large ≡ pool.large)
ServesLarge span pool size data_at (ok (some at) pool' heap) =
    (data_at ≡ some at)
    × Keeps span pool pool'
    × ((l : ℕ) × (pool'.large ≡ (l, at) ∷ pool.large)
        × Owned pool'.blocks l sizeof_large
        × ((a n : ℕ) → Owned pool.blocks a n → (a + n ≤ l) ⊎ (l + sizeof_large ≤ a)))
ServesLarge span pool size data_at Allocated.undefined = ⊥
ServesLarge span pool size data_at Allocated.out_of_fuel = ⊥

pub is_small_iff :
    {span : ℕ} (bs : List Block) (size : ℕ)
    → AreBlocks span bs
    → 0 < length bs
    → (is_small bs size ≡ true) ↔ ((size ≤ pool_alloc_max) × (size + sizeof_pool ≤ span))
unfolding is_small align_ptr sub64
is_small_iff [] size all some_block = absurd (omega arith)
is_small_iff (b ∷ rest) size all some_block =
    let good = all.block 0 b refl in
    ground (arith, good.base_aligned, good.end_is, good.end_lt, good.last_ge, good.last_le)

module _ {m : Malloc} {span : ℕ} (pool : Pool) (size : ℕ) (inv : IsPool span pool) where
  pub Allocates-ServesSmall :
      (r : Allocated m) → Allocates span pool size r → ServesSmall span pool size r
  Allocates-ServesSmall (ok none pool' heap') (b, l, s, c) = (
    record {
      kept = record {
        blocks = subst (AreBlocks span) (sym b) inv.blocks;
        cur_lt = c;
        span_ge = inv.span_ge;
      };
      still_owned = λ a n o. subst (λ bs. Owned bs a n) (sym b) o;
    },
    l,
  )
  Allocates-ServesSmall (ok (some at) pool' heap') (g, aligned, l, c) = record {
    keeps = record {
      kept = record { blocks = Grown-AreBlocks inv.blocks g; cur_lt = c; span_ge = inv.span_ge };
      still_owned = λ a n o. Owned-mono inv.blocks g o;
    };
    same_large = l;
    aligned = aligned;
    owned = Owned-new inv.blocks g;
    disjoint = λ a n o. Owned-disjoint inv.blocks g o;
  }
  Allocates-ServesSmall Allocated.undefined h = h
  Allocates-ServesSmall Allocated.out_of_fuel h = h

module _ {span : ℕ} (pool : Pool) (inv : IsPool span pool) where
  not_small :
      (size : ℕ)
      → (pool_alloc_max < size) ⊎ (span < size + sizeof_pool)
      → is_small pool.blocks size ≡ false
  not_small size large = elim (Bool-cases (is_small pool.blocks size)) [
    | inl small ↦
        let h = (is_small_iff pool.blocks size inv.blocks (omega (arith, inv.cur_lt))).0 small in
        absurd (omega (arith, large, h))
    | inr big ↦ big
  ]

module _ {m : Malloc} {span : ℕ} (pool : Pool) (inv : IsPool span pool) where
  -- Small sizes are served from the blocks: aligned bytes of a block, with no byte that an earlier
  -- allocation has, and the pool stays in order.
  pub pool_alloc-ServesSmall :
      (heap : m.Heap) (fuel size : ℕ)
      → IsFresh m heap pool.blocks
      → size ≤ pool_alloc_max
      → size + sizeof_pool ≤ span
      → ServesSmall span pool size (pool_alloc {m = m} (suc fuel) heap pool size)
  unfolding pool_alloc
  pool_alloc-ServesSmall heap fuel size fresh max small =
      rw ((is_small_iff pool.blocks size inv.blocks (omega (arith, inv.cur_lt))).1 (max, small)) (
        Allocates-ServesSmall pool size inv _
          (alloc_small-Allocates heap pool size inv fresh small))

  linked :
      (size at : ℕ) (r : Allocated m)
      → ServesSmall span pool sizeof_large r
      → ServesLarge span pool size (some at) (link_large at size r)
  linked size at (ok none pool' heap') k = k
  linked size at (ok (some l) pool' heap') h = (
    refl,
    record {
      kept = record {
        blocks = h.keeps.kept.blocks;
        cur_lt = h.keeps.kept.cur_lt;
        span_ge = h.keeps.kept.span_ge;
      };
      still_owned = h.keeps.still_owned;
    },
    (l, ap (◌∷◌ (l, at)) h.same_large, h.owned, h.disjoint),
  )
  linked size at Allocated.undefined h = h
  linked size at Allocated.out_of_fuel h = h

  -- Larger sizes come from `malloc`, and a node in a block links them: two calls deep is enough.
  pub pool_alloc-ServesLarge :
      (heap : m.Heap) (fuel size : ℕ)
      → IsFresh m (m.malloc heap size).1 pool.blocks
      → (pool_alloc_max < size) ⊎ (span < size + sizeof_pool)
      → ServesLarge span pool size
          (m.malloc heap size).0
          (pool_alloc {m = m} (suc (suc fuel)) heap pool size)
  unfolding pool_alloc
  pool_alloc-ServesLarge heap fuel size fresh large = rw (not_small pool inv size large) (
      Option-elim_eq (ServesLarge span pool size (m.malloc heap size).0) (m.malloc heap size).0 _ _
        (λ e. (
          record {
            kept = record { blocks = inv.blocks; cur_lt = inv.cur_lt; span_ge = inv.span_ge };
            still_owned = λ a n o. o;
          },
          refl,
        ))
        (λ at e. rw e (
          linked size at _ (
            pool_alloc-ServesSmall (m.malloc heap size).1 fuel sizeof_large fresh (omega arith)
              (omega (arith, inv.span_ge))))))
