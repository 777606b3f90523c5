-- ===== src/Pool/Memory/Asks.antt =====
-- What a small allocation of src/pool.c asks of `malloc`.
use libhelp.Base.{
  ℕ, ◌+◌, ◌≤◌, ◌≡◌, refl, Option, some, Option-elim_eq, List, [], ◌∷◌, ◌++◌, drop, length, if-elim,
  ltb,
}
use libhelp.Pool.{
  Malloc, Block, Pool, Found, fits, full, Allocated, Made, ok, alloc_small, place, append_block,
  new_block, sizeof_pool,
}
use libhelp.Pool.Alloc.{IsPool, IsFresh, alloc_small-elim, span_is}
use libhelp.Pool.Blocks.{length-set_last}
use libhelp.Pool.Scan.{ScanAt}

-- What becomes of the heap: nothing, or one `malloc`, and what it returned is the block that is new.
pub data Asks (m : Malloc) (heap : m.Heap) (span : ℕ) (old new : List Block) (heap' : m.Heap)
    : Type 0 where
  nothing : heap' ≡ heap → length new ≡ length old → Asks m heap span old new heap'
  refused :
      heap' ≡ (m.malloc heap span).1 → length new ≡ length old → Asks m heap span old new heap'
  granted :
      (n : Block)
      → heap' ≡ (m.malloc heap span).1
      → new ≡ old ++ (n ∷ [])
      → (m.malloc heap span).0 ≡ some n.base
      → Asks m heap span old new heap'

abbrev pub AsksIn : {m : Malloc} → m.Heap → ℕ → Pool → Allocated m → Type 0
AsksIn {m} heap span pool (ok r pool' heap') = Asks m heap span pool.blocks pool'.blocks heap'
AsksIn heap span pool _ = Unit

module _ {m : Malloc} (heap : m.Heap) {span : ℕ} (pool : Pool) (size : ℕ) (inv : IsPool span pool)
    (fresh : IsFresh m heap pool.blocks) (small : size + sizeof_pool ≤ span) where
  append-Asks :
      (cur rmd : ℕ) (c : Option ℕ)
      → AsksIn heap span pool (append_block pool size cur c span (new_block {m = m} heap span rmd))
  unfolding new_block
  append-Asks cur rmd c =
      let P : Made m → Type 0 = λ n. AsksIn heap span pool (append_block pool size cur c span n) in
      if-elim P (ltb span 0) (nothing refl refl) (
        Option-elim_eq P (m.malloc heap span).0 _ _ (λ e. refused refl refl)
          (λ base e. if-elim P (ltb span sizeof_pool) tt (granted _ refl refl e)))

  pub alloc_small-Asks : AsksIn heap span pool (alloc_small {m = m} heap pool size)
  alloc_small-Asks = alloc_small-elim heap pool size inv fresh small (AsksIn heap span pool) placed
    where
      placed :
          (f : Found)
          → ScanAt size pool.cur (drop pool.cur pool.blocks) f
          → AsksIn heap span pool (place {m = m} heap pool size f)
      placed (fits i at cur) h = nothing refl (length-set_last pool.blocks i (at + size))
      placed (full b cur c) h =
          rw (span_is heap pool size inv fresh small b h.o h.found) (append-Asks cur b.rmd c)
