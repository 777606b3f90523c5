-- ===== src/Config/Backing.antt =====
-- The laws of Config/Sound hold of src/pool.c, in a heap with the laws of `malloc`.
use libhelp.Base.{ℕ, ◌≡◌, refl, true, none, some, [], ◌∷◌, ◌++◌, Bytes, arith, replicate, Option}
use libhelp.Config.InPool.{Store, sizeof_config, answer, pool_memory}
use libhelp.Config.New.{config_pool_size, config_pool_rmd_size}
use libhelp.Config.Sound.{Kept, IsBacked, IsFounded}
use libhelp.Pool.{Malloc, Allocated, ok}
use libhelp.Pool.Memory.{IsAllocator, Good, Buffer, Intact, KeepsBuffers}
use libhelp.Pool.Memory.Copy.{Stands, Stands-Intact, Copies, pool_cpy-Copies, pool_calloc-Copies}
use libhelp.Pool.Memory.New.{IsGoodNew, pool_new-IsGoodNew}
use libhelp.Pool.Memory.Steps.{
  malloc-Intact, malloc-KeepsBuffers, malloc-Buffer, malloc-new, free-Intact, free-KeepsBuffers,
}

module _ {m : Malloc} (laws : IsAllocator m) (n : ℕ) where
  -- so many calls of the pool did not return, all of them before
  abbrev pub GoodStore : Store m → Type 0
  GoodStore s = Good laws config_pool_size s.heap s.pool × (s.lost ≡ n)

  -- a C string stands at an address in the pool, with the NUL that ends it
  abbrev pub HoldsStore : Store m → ℕ → Bytes → Type 0
  HoldsStore s a bytes = Stands laws s.heap s.pool a (bytes ++ (0 ∷ []))

  abbrev pub BufferStore : Store m → ℕ → Type 0
  BufferStore s p = (k : ℕ) × Buffer laws s.heap s.pool p k

  module _ (realloc : m.Heap → ℕ → ℕ → Option ℕ × m.Heap) where
    abbrev pub StoreKept : Store m → Store m → (ℕ → Type 0) → Type 0
    StoreKept = Kept (pool_memory m realloc) GoodStore HoldsStore BufferStore

    pub step-Kept :
        (s s' : Store m) (Spared : ℕ → Type 0)
        → Intact laws config_pool_size s.heap s.pool s'.heap s'.pool
        → KeepsBuffers laws s.heap s.pool s'.heap s'.pool Spared
        → s'.lost ≡ n
        → StoreKept s s' Spared
    step-Kept s s' Spared i k e = record {
      good = (i.good, e);
      holds = λ a bytes there. Stands-Intact laws i a (bytes ++ (0 ∷ [])) there;
      buffers = λ q spared x. let (size, b) = x in (size, k q size spared b);
    }

    pub answer-Kept :
        (s : Store m) (bytes : Bytes) (r : Allocated m)
        → s.lost ≡ n
        → Copies laws config_pool_size s.heap s.pool bytes r
        → StoreKept s (answer s r).1 (λ q. Unit)
    answer-Kept s bytes (ok none pool h) e c = step-Kept s _ _ c.0 c.1 e
    answer-Kept s bytes (ok (some at) pool h) e c = let (i, k, there) = c in step-Kept s _ _ i k e
    answer-Kept s bytes Allocated.undefined e c = absurd c
    answer-Kept s bytes Allocated.out_of_fuel e c = absurd c

    pub answer-Stands :
        (s : Store m) (bytes : Bytes) (r : Allocated m)
        → Copies laws config_pool_size s.heap s.pool bytes r
        → (answer s r).0 ≡ true
        → (a : ℕ) × Stands laws (answer s r).1.heap (answer s r).1.pool a bytes
    answer-Stands s bytes (ok none pool h) c e = absurd (cc e)
    answer-Stands s bytes (ok (some at) pool h) c e = let (i, k, there) = c in (at, there)
    answer-Stands s bytes Allocated.undefined c e = absurd c
    answer-Stands s bytes Allocated.out_of_fuel c e = absurd c

    pub answer-Good :
        (s : Store m) (r : Allocated m)
        → s.lost ≡ n
        → IsGoodNew laws config_pool_size r
        → (answer s r).0 ≡ true
        → GoodStore (answer s r).1
    answer-Good s (ok none pool h) l c e = absurd (cc e)
    answer-Good s (ok (some at) pool h) l c e = (c, l)
    answer-Good s Allocated.undefined l c e = absurd c
    answer-Good s Allocated.out_of_fuel l c e = absurd c

    -- whether `pool_new` gives a pool or not, it returns
    pub answer-lost :
        (s : Store m) (r : Allocated m)
        → s.lost ≡ n
        → IsGoodNew laws config_pool_size r
        → (answer s r).1.lost ≡ n
    answer-lost s (ok none pool h) l c = l
    answer-lost s (ok (some at) pool h) l c = l
    answer-lost s Allocated.undefined l c = absurd c
    answer-lost s Allocated.out_of_fuel l c = absurd c

    unfoldable pub pool_backed : IsBacked (pool_memory m realloc)
    pool_backed = record {
      Good = GoodStore;
      Holds = HoldsStore;
      Buffer = BufferStore;
      cpy_kept = λ s bytes good.
          answer-Kept s (bytes ++ (0 ∷ [])) _ good.1
            (pool_cpy-Copies laws config_pool_size s.heap s.pool (bytes ++ (0 ∷ [])) 0 good.0);
      cpy_holds = λ s bytes good done.
          answer-Stands s (bytes ++ (0 ∷ [])) _
            (pool_cpy-Copies laws config_pool_size s.heap s.pool (bytes ++ (0 ∷ [])) 0 good.0) done;
      alloc_kept = λ s size good.
          step-Kept s (record s { heap = (m.malloc s.heap size).1 }) _
            (malloc-Intact laws s.heap s.pool good.0 size)
            (malloc-KeepsBuffers laws s.heap s.pool good.0 size) good.1;
      alloc_buffer = λ s size p good nz e. (
        (size, malloc-Buffer laws s.heap s.pool good.0 size p nz e),
        λ q x. let (k, b) = x in malloc-new laws s.heap s.pool good.0 size p nz e q k b,
      );
      free_kept = λ s p good x.
          let (size, b) = x in
          step-Kept s (record s { heap = m.free s.heap p }) _
            (free-Intact laws s.heap s.pool good.0 p size b)
            (free-KeepsBuffers laws s.heap s.pool good.0 p size b) good.1;
    }

    unfoldable pub pool_founded : (s : Store m) → s.lost ≡ n → IsFounded pool_backed s
    unfolding pool_backed
    pool_founded s none_lost = record {
      Ended = λ t. t.lost ≡ n;
      pool_new_ended =
          answer-lost s _ none_lost (
            pool_new-IsGoodNew laws s.heap config_pool_size config_pool_rmd_size refl
              (omega arith));
      pool_new_good = λ made.
          answer-Good s _ none_lost
            (pool_new-IsGoodNew laws s.heap config_pool_size config_pool_rmd_size refl
              (omega arith))
            made;
      pool_calloc_kept = λ t good.
          answer-Kept t (replicate sizeof_config 0) _ good.1
            (pool_calloc-Copies laws config_pool_size t.heap t.pool 0 sizeof_config good.0);
      pool_delete_ended = λ t good. good.1;
    }
