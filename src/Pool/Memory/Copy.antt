-- ===== src/Pool/Memory/Copy.antt =====
-- `pool_cpy` of src/pool.c puts a copy beside what the pool handed out before.
use libhelp.Base.{
  ℕ, zero, suc, ◌+◌, ◌≡◌, refl, ap, ◌∙◌, replicate, none, some, Bytes, get_elem?, length,
}
use libhelp.Pool.{Malloc, Pool, Allocated, ok, filled, pool_alloc, pool_cpy, pool_calloc}
use libhelp.Pool.Blocks.{lt_of_get_elem?}
use libhelp.Pool.Memory.{IsAllocator, Good, Placed, Intact, KeepsBuffers}
use libhelp.Pool.Memory.Large.{pool_alloc-Serves}
use libhelp.Pool.Memory.Small.{Serves}
use libhelp.Pool.Memory.Steps.{write-Good, write-Placed, write-KeepsBuffers, write-Same}

-- the bytes stand at `a`, in memory that the pool handed out
pub record Stands {m : Malloc} (laws : IsAllocator m) (h : m.Heap) (pool : Pool) (a : ℕ)
    (bytes : Bytes) : Type 0 where
  pub placed : Placed laws h pool a (length bytes)
  pub stored : (i b : ℕ) → get_elem? bytes i ≡ some b → laws.byte h (a + i) ≡ b

pub Stands-Intact :
    {m : Malloc} (laws : IsAllocator m) {span : ℕ} {h h' : m.Heap} {pool pool' : Pool}
    → Intact laws span h pool h' pool'
    → (a : ℕ) (bytes : Bytes) → Stands laws h pool a bytes
    → Stands laws h' pool' a bytes
Stands-Intact laws i a bytes s = record {
  placed = (i.placed a (length bytes) s.placed).0;
  stored = λ k b e.
      (i.placed a (length bytes) s.placed).1 k (lt_of_get_elem? bytes k e) ∙ s.stored k b e;
}

-- What a copy does: it returns `NULL`, or an address at which the bytes stand.
abbrev pub Copies : {m : Malloc} → IsAllocator m → ℕ → m.Heap → Pool → Bytes → Allocated m → Type 0
Copies laws span h pool bytes (ok none pool' h') =
    Intact laws span h pool h' pool' × KeepsBuffers laws h pool h' pool' (λ a. Unit)
Copies laws span h pool bytes (ok (some at) pool' h') =
    Intact laws span h pool h' pool'
    × KeepsBuffers laws h pool h' pool' (λ a. Unit)
    × Stands laws h' pool' at bytes
Copies laws span h pool bytes Allocated.undefined = ⊥
Copies laws span h pool bytes Allocated.out_of_fuel = ⊥

module _ {m : Malloc} (laws : IsAllocator m) (span : ℕ) (h : m.Heap) (pool : Pool)
    (bytes : Bytes) where
  filled-Copies :
      (r : Allocated m)
      → Serves laws span h pool (length bytes) r
      → Copies laws span h pool bytes (filled bytes r)
  filled-Copies (ok none pool' h') s = s
  filled-Copies (ok (some at) pool' h') (i, kept, placed, apart) = (
    record {
      good = write-Good laws h' pool' i.good at bytes;
      placed = λ a n p.
          let (p', same) = i.placed a n p in
          (
            write-Placed laws h' pool' i.good at bytes a n p',
            λ k lt. write-Same laws h' pool' i.good at bytes a n (apart a n p) k lt ∙ same k lt,
          );
    },
    λ a n s b. write-KeepsBuffers laws h' pool' i.good at bytes a n tt (kept a n tt b),
    record {
      placed = write-Placed laws h' pool' i.good at bytes at (length bytes) placed;
      stored = laws.write_at h' at bytes;
    },
  )
  filled-Copies Allocated.undefined s = s
  filled-Copies Allocated.out_of_fuel s = s

  -- `pool_cpy` of any bytes, two nested calls deep: in a pool in order, whose blocks and large data
  -- `malloc` returned, it ends in a pool of that kind. What the pool handed out before is still handed
  -- out with the same bytes in it, buffers of others are left alone, and the bytes stand at the address
  -- that is returned, if it is not `NULL`.
  pub pool_cpy-Copies :
      (fuel : ℕ)
      → Good laws span h pool
      → Copies laws span h pool bytes (pool_cpy {m = m} (suc (suc fuel)) h pool bytes)
  unfolding pool_cpy
  pool_cpy-Copies fuel good =
      filled-Copies (pool_alloc {m = m} (suc (suc fuel)) h pool (length bytes))
        (pool_alloc-Serves laws h pool good fuel (length bytes))

length-replicate : (n b : ℕ) → length (replicate n b) ≡ n
length-replicate zero b = refl
length-replicate (suc n) b = ap suc (length-replicate n b)

-- the same for zeros
pub pool_calloc-Copies :
    {m : Malloc} (laws : IsAllocator m) (span : ℕ) (h : m.Heap) (pool : Pool) (fuel size : ℕ)
    → Good laws span h pool
    → Copies laws span h pool (replicate size 0) (pool_calloc {m = m} (suc (suc fuel)) h pool size)
unfolding pool_calloc
pool_calloc-Copies {m} laws span h pool fuel size good =
    filled-Copies laws span h pool (replicate size 0)
      (pool_alloc {m = m} (suc (suc fuel)) h pool size)
      (rw (length-replicate size 0) (pool_alloc-Serves laws h pool good fuel size))
