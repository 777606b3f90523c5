-- ===== src/Pool/Tests.antt =====
-- Runs of the allocator of src/pool.c, and its theorems at a pool of one block.
use libhelp.Base.{
  inl, ℕ, zero, suc, ◌+◌, ◌*◌, ◌/◌, ◌^◌, ◌%◌, ◌≡◌, ◌≤◌, ◌⊎◌, refl, ap, subst, none, some, List, [],
  ◌∷◌, arith, get_elem?, eq_of_some, ltb, count, if◌then◌else◌,
}
use libhelp.Pool.{
  Malloc, Block, Pool, Allocated, ok, pool_new, pool_alloc, pool_free, pool_delete, alignment,
}
use libhelp.Pool.Alloc.{IsPool, IsFresh}
use libhelp.Pool.Free.{pool_free-Owned}
use libhelp.Pool.Grown.{IsBlock, AreBlocks, Owned}
use libhelp.Pool.Serve.{ServesSmall, ServesLarge, pool_alloc-ServesSmall, pool_alloc-ServesLarge}
use libhelp.Pool.Tiny.{pool_alloc-Tiny}
use libhelp.Pool.Accounts.{Log, logged}
use libhelp.Pool.Lifetime.{allocs, empty, pool_delete-GivesBack}

-- A heap that only grows: the next free address, and what was freed.
record Bump : Type 0 where
  next : ℕ
  freed : List ℕ

abbrev bump : Malloc
bump = record {
  Heap = Bump;
  malloc = λ h n. (
    if ltb (h.next + n) (2 ^ 62) then some h.next else none,
    record h { next = h.next + (n + 15) / 16 * 16 },
  );
  free = λ h p. record h { freed = p ∷ h.freed };
  write = λ h p bytes. h;
}

abbrev heap : Bump
heap = record { next = 8192; freed = [] }

abbrev block : Block
block = record { base = 4096; last = 4252; end = 8192; rmd = 32 }

abbrev pool : Pool
pool = record { blocks = block ∷ []; cur = 0; size = 4096; large = [] }

new_pool :
    pool_new {m = bump} (record heap { next = 4096 }) 4096 32
    ≡ ok (some 4096) (record pool { blocks = record block { last = 4152 } ∷ [] }) heap
unfolding pool_new
new_pool = refl

small_then_freed :
    pool_free (record pool { blocks = record block { last = 4356 } ∷ [] }) 4256 100
    ≡ record pool { blocks = record block { last = 4256 } ∷ [] }
unfolding pool_free
small_then_freed = refl

-- the second block is made when the first is full
second_block :
    pool_alloc {m = bump} 2 heap pool 4000
    ≡ ok
        (some 8248)
        (record {
          blocks = block ∷ record { base = 8192; last = 12248; end = 12288; rmd = 32 } ∷ [];
          cur = 0;
          size = 8192;
          large = [];
        })
        (record heap { next = 12288 })
unfolding pool_alloc
second_block = refl

deleted :
    pool_delete bump heap (some (record pool { large = (4256, 20000) ∷ [] }))
    ≡ record heap { freed = 4096 ∷ 20000 ∷ [] }
unfolding pool_delete
deleted = refl

block-IsBlock : IsBlock 4096 block
block-IsBlock = omega arith

pool-AreBlocks : AreBlocks 4096 pool.blocks
pool-AreBlocks = record { span_aligned = refl; block = one; apart = alone }
  where
    one : (i : ℕ) (b : Block) → get_elem? (block ∷ []) i ≡ some b → IsBlock 4096 b
    one zero b e = subst (IsBlock 4096) (eq_of_some e) block-IsBlock
    one (suc i) b e = cc

    alone :
        (i k : ℕ) (b d : Block)
        → ¬ (i ≡ k)
        → get_elem? (block ∷ []) i ≡ some b
        → get_elem? (block ∷ []) k ≡ some d
        → (b.end ≤ d.base) ⊎ (d.end ≤ b.base)
    alone zero zero b d ne e f = absurd (ne refl)
    alone zero (suc k) b d ne e f = cc
    alone (suc i) k b d ne e f = cc

pool-IsPool : IsPool 4096 pool
pool-IsPool = record { blocks = pool-AreBlocks; cur_lt = omega arith; span_ge = omega arith }

bump-IsFresh : (h : Bump) → 8192 ≤ h.next → h.next % alignment ≡ 0 → IsFresh bump h pool.blocks
bump-IsFresh h far aligned = record {
  aligned = λ n base e. ground arith;
  below = λ n base e. ground arith;
  apart = λ n base i b e f. behind n base i b e f;
}
  where
    behind :
        (n base i : ℕ) (b : Block)
        → (bump.malloc h n).0 ≡ some base
        → get_elem? (block ∷ []) i ≡ some b
        → (base + n ≤ b.base) ⊎ (b.end ≤ base)
    behind n base zero b e f =
        let ends : 8192 ≡ b.end = ap (λ (x : Block). x.end) (eq_of_some f) in ground arith
    behind n base (suc i) b e f = cc

pool_alloc-ServesSmall_example : ServesSmall 4096 pool 4000 (pool_alloc {m = bump} 1 heap pool 4000)
pool_alloc-ServesSmall_example =
    pool_alloc-ServesSmall pool pool-IsPool heap 0 4000 (bump-IsFresh heap (omega arith) refl)
      (omega arith) (omega arith)

pool_alloc-ServesLarge_example :
    ServesLarge 4096 pool 5000 (some 8192) (pool_alloc {m = bump} 2 heap pool 5000)
pool_alloc-ServesLarge_example =
    pool_alloc-ServesLarge pool pool-IsPool heap 0 5000
      (bump-IsFresh (record heap { next = 13200 }) (omega arith) refl) (omega arith)

handed : (a n : ℕ) → 4152 ≤ a → a + n ≤ 4252 → Owned pool.blocks a n
handed a n low high = record { index = 0; owner = block; found = refl; low = low; high = high }

-- the last 52 bytes of the block are taken back, and the 48 before them are kept
pool_free-Owned_example :
    IsPool 4096 (pool_free pool 4200 52) × Owned (pool_free pool 4200 52).blocks 4152 48
pool_free-Owned_example =
    pool_free-Owned pool 4200 52 4152 48 pool-IsPool (handed 4200 52 (omega arith) (omega arith))
      (handed 4152 48 (omega arith) (omega arith)) (omega arith) (inl (omega arith))

-- a heap that never refuses
abbrev endless : Malloc
endless = record {
  Heap = ℕ;
  malloc = λ h n. (some h, h + (n + 15) / 16 * 16);
  free = λ h p. h;
  write = λ h p bytes. h;
}

abbrev tiny_pool : Pool
tiny_pool = record {
  blocks = record { base = 4096; last = 4152; end = 4160; rmd = 32 } ∷ [];
  cur = 0;
  size = 64;
  large = [];
}

pool_alloc-Tiny_example : pool_alloc {m = endless} 1000 8192 tiny_pool 9 ≡ Allocated.out_of_fuel
pool_alloc-Tiny_example =
    pool_alloc-Tiny {m = endless} (λ h n. (h, refl)) 1000 8192 tiny_pool
      (record { base = 4096; last = 4152; end = 4160; rmd = 32 }) [] 64 9 refl refl (omega arith)
      (omega arith) (omega arith) (omega arith)

-- a new pool, and the same after allocations of 4000, 5000 and 100 bytes
abbrev fresh_pool : Pool
fresh_pool = record {
  blocks = record { base = 8192; last = 8248; end = 12288; rmd = 32 } ∷ [];
  cur = 0;
  size = 4096;
  large = [];
}

abbrev fresh_log : Log bump
fresh_log = record { heap = record heap { next = 12288 }; taken = 8192 ∷ []; back = [] }

abbrev used_pool : Pool
used_pool = record {
  blocks =
      record { base = 8192; last = 12264; end = 12288; rmd = 32 }
      ∷ record { base = 17296; last = 17452; end = 21392; rmd = 32 }
      ∷ [];
  cur = 1;
  size = 13192;
  large = (12248, 12288) ∷ [];
}

abbrev used_log : Log bump
used_log = record {
  heap = record heap { next = 21392 };
  taken = 17296 ∷ 12288 ∷ 8192 ∷ [];
  back = [];
}

made_new : pool_new {m = logged bump} (empty heap) 4096 32 ≡ ok (some 8192) fresh_pool fresh_log
unfolding pool_new
made_new = refl

served : allocs 2 (4000 ∷ 5000 ∷ 100 ∷ []) fresh_pool fresh_log ≡ ok none used_pool used_log
unfolding allocs
served = refl

pool_delete-GivesBack_example :
    count 12288 (pool_delete (logged bump) used_log (some used_pool)).back
    ≡ count 12288 used_log.taken
pool_delete-GivesBack_example =
    pool_delete-GivesBack 2 heap 4096 32 (4000 ∷ 5000 ∷ 100 ∷ []) made_new served refl 12288
