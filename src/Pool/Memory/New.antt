-- ===== src/Pool/Memory/New.antt =====
-- `pool_new` of src/pool.c in a heap with the laws of `malloc`.
use libhelp.Base.{
  ℕ, zero, suc, ◌+◌, ◌%◌, ◌≤◌, ◌≡◌, ◌≢◌, refl, subst, none, some, [], ◌∷◌, arith, get_elem?, ltb,
  if-elim, Option-elim_eq, eq_of_some, le→ltb,
}
use libhelp.Pool.{
  Malloc, Block, Allocated, ok, new_block, pool_of, pool_new, sizeof_pool, sizeof_large, alignment,
}
use libhelp.Pool.Grown.{IsBlock}
use libhelp.Pool.Memory.{IsAllocator, Good}

-- the pool after its creation, unless `NULL` was returned
abbrev pub IsGoodNew : {m : Malloc} → IsAllocator m → ℕ → Allocated m → Type 0
IsGoodNew laws span (ok none pool heap) = Unit
IsGoodNew laws span (ok (some p) pool heap) = Good laws span heap pool
IsGoodNew laws span Allocated.undefined = ⊥
IsGoodNew laws span Allocated.out_of_fuel = ⊥

-- what holds of the only element holds of all
one_elem :
    (P : Block → Type 0) (b : Block)
    → P b
    → (i : ℕ) (d : Block) → get_elem? (b ∷ []) i ≡ some d
    → P d
one_elem P b h zero d e = subst P (eq_of_some e) h
one_elem P b h (suc i) d e = cc

one_index :
    (b : Block) (i k : ℕ) (d d' : Block)
    → i ≢ k
    → get_elem? (b ∷ []) i ≡ some d
    → get_elem? (b ∷ []) k ≡ some d'
    → ⊥
one_index b zero zero d d' ne e f = ne refl
one_index b zero (suc k) d d' ne e f = cc
one_index b (suc i) k d d' ne e f = cc

pub pool_new-IsGoodNew :
    {m : Malloc} (laws : IsAllocator m) (h : m.Heap) (span rmd : ℕ)
    → span % alignment ≡ 0
    → sizeof_pool + sizeof_large ≤ span
    → IsGoodNew laws span (pool_new {m = m} h span rmd)
unfolding pool_new new_block
pool_new-IsGoodNew {m} laws h span rmd whole room =
    if-elim (λ r. IsGoodNew laws span (pool_of span r)) (ltb span 0) tt
      (Option-elim_eq (λ r. IsGoodNew laws span (pool_of span r)) (m.malloc h span).0 _ _ (λ e. tt)
        (λ base e.
          rw (le→ltb span sizeof_pool (omega (arith, room))) (good base e _ refl refl refl)))
  where
    good :
        (base : ℕ) (e : (m.malloc h span).0 ≡ some base) (b : Block)
        → b.base ≡ base
        → b.last ≡ base + sizeof_pool
        → b.end ≡ base + span
        → Good laws span
            (m.malloc h span).1
            (record { blocks = b ∷ []; cur = 0; size = span; large = [] })
    good base e b is last_is end_is = record {
      inv = record {
        blocks = record {
          span_aligned = whole;
          block = one_elem (IsBlock span) b (record {
            base_aligned = rw is (laws.aligned h span base e);
            end_is = omega (arith, is, end_is);
            end_lt = omega (arith, end_is, laws.below h span base e);
            last_ge = omega (arith, is, last_is);
            last_le = omega (arith, last_is, end_is, room);
          });
          apart = λ i k d d' ne f g. absurd (one_index b i k d d' ne f g);
        };
        cur_lt = omega arith;
        span_ge = room;
      };
      blocks =
          one_elem (λ d. laws.Taken (m.malloc h span).1 d.base span) b
            (rw is (laws.taken h span base e));
      large = λ a l. absurd l;
    }
