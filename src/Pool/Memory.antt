-- ===== src/Pool/Memory.antt =====
-- What src/pool.c needs of `malloc`, `free` and stores, and the bytes that a pool and its clients have
-- in the heap. The laws are documented behaviour of the C library.
pub mod Steps
pub mod Asks
pub mod Small
pub mod Large
pub mod Copy
pub mod New
pub mod Sample
mod Tests
use libhelp.Base.{
  ℕ, ◌+◌, ◌%◌, ◌^◌, ◌≤◌, ◌<◌, ◌≡◌, ◌≢◌, ◌∙◌, ◌⊎◌, inl, inr, Option, none, some, List, [], ◌∷◌,
  Bytes, arith, get_elem?, length, subst,
}
use libhelp.Pool.{Malloc, Block, Pool, alignment, sizeof_pool}
use libhelp.Pool.Alloc.{IsPool, IsFresh}
use libhelp.Pool.Grown.{Owned}

-- `Taken h a n`: `malloc` returned `a` for `n` bytes and nobody freed it. `byte h a` is what stands at
-- the address `a`.
pub record IsAllocator (m : Malloc) : Type 1 where
  pub Taken : m.Heap → ℕ → ℕ → Type 0
  pub byte : m.Heap → ℕ → ℕ
  pub aligned : (h : m.Heap) (n p : ℕ) → (m.malloc h n).0 ≡ some p → p % alignment ≡ 0
  pub below : (h : m.Heap) (n p : ℕ) → (m.malloc h n).0 ≡ some p → p + n < 2 ^ 63
  pub taken : (h : m.Heap) (n p : ℕ) → (m.malloc h n).0 ≡ some p → Taken (m.malloc h n).1 p n
  pub apart :
      (h : m.Heap) (n p a k : ℕ)
      → (m.malloc h n).0 ≡ some p
      → Taken h a k
      → (p + n ≤ a) ⊎ (a + k ≤ p)
  pub malloc_taken : (h : m.Heap) (n a k : ℕ) → Taken h a k → Taken (m.malloc h n).1 a k
  pub malloc_byte :
      (h : m.Heap) (n a k i : ℕ)
      → Taken h a k
      → i < k
      → byte (m.malloc h n).1 (a + i) ≡ byte h (a + i)
  pub free_taken : (h : m.Heap) (p a k : ℕ) → a ≢ p → Taken h a k → Taken (m.free h p) a k
  pub free_byte :
      (h : m.Heap) (p a k i : ℕ)
      → a ≢ p
      → Taken h a k
      → i < k
      → byte (m.free h p) (a + i) ≡ byte h (a + i)
  pub write_taken :
      (h : m.Heap) (p : ℕ) (bytes : Bytes) (a k : ℕ) → Taken h a k → Taken (m.write h p bytes) a k
  pub write_at :
      (h : m.Heap) (p : ℕ) (bytes : Bytes) (i b : ℕ)
      → get_elem? bytes i ≡ some b
      → byte (m.write h p bytes) (p + i) ≡ b
  pub write_else :
      (h : m.Heap) (p : ℕ) (bytes : Bytes) (a : ℕ)
      → (a < p) ⊎ (p + length bytes ≤ a)
      → byte (m.write h p bytes) a ≡ byte h a

-- membership in the list of large allocations
abbrev pub Links : List (ℕ × ℕ) → ℕ → Type 0
Links [] a = ⊥
Links ((l, d) ∷ rest) a = (d ≡ a) ⊎ Links rest a

-- `n` bytes that `malloc` returned at `a`, outside of the blocks
pub record Alone {m : Malloc} (laws : IsAllocator m) (h : m.Heap) (bs : List Block) (a n : ℕ)
    : Type 0 where
  pub some_byte : 0 < n
  pub taken : laws.Taken h a n
  pub far : (i : ℕ) (b : Block) → get_elem? bs i ≡ some b → (a + n ≤ b.base) ⊎ (b.end ≤ a)

-- The pool is in order, and `malloc` returned its blocks and the data of its `large` list.
pub record Good {m : Malloc} (laws : IsAllocator m) (span : ℕ) (h : m.Heap) (pool : Pool)
    : Type 0 where
  pub inv : IsPool span pool
  pub blocks : (i : ℕ) (b : Block) → get_elem? pool.blocks i ≡ some b → laws.Taken h b.base span
  pub large : (a : ℕ) → Links pool.large a → (n : ℕ) × Alone laws h pool.blocks a n

-- `n` bytes at `a` that the pool handed out: in a block, or as data of the `large` list
pub data Placed {m : Malloc} (laws : IsAllocator m) (h : m.Heap) (pool : Pool) (a n : ℕ)
    : Type 0 where
  in_block : Owned pool.blocks a n → Placed laws h pool a n
  in_large : Links pool.large a → Alone laws h pool.blocks a n → Placed laws h pool a n

-- `n` bytes at `a` that `malloc` returned to somebody else than the pool
pub record Buffer {m : Malloc} (laws : IsAllocator m) (h : m.Heap) (pool : Pool) (a n : ℕ)
    : Type 0 where
  pub alone : Alone laws h pool.blocks a n
  pub unlinked : ¬ Links pool.large a

abbrev pub Same : {m : Malloc} → IsAllocator m → m.Heap → m.Heap → ℕ → ℕ → Type 0
Same laws h h' a n = (i : ℕ) → i < n → laws.byte h' (a + i) ≡ laws.byte h (a + i)

-- A step of the heap and the pool: the pool stays good, and what it handed out stays in place.
pub record Intact {m : Malloc} (laws : IsAllocator m) (span : ℕ) (h : m.Heap) (pool : Pool)
    (h' : m.Heap) (pool' : Pool) : Type 0 where
  pub good : Good laws span h' pool'
  pub placed : (a n : ℕ) → Placed laws h pool a n → Placed laws h' pool' a n × Same laws h h' a n

abbrev pub KeepsBuffers :
    {m : Malloc} → IsAllocator m → m.Heap → Pool → m.Heap → Pool → (ℕ → Type 0) → Type 0
KeepsBuffers laws h pool h' pool' Spared =
    (a n : ℕ) → Spared a → Buffer laws h pool a n → Buffer laws h' pool' a n

Same-trans :
    {m : Malloc} (laws : IsAllocator m) (h h' h'' : m.Heap) (a n : ℕ)
    → Same laws h h' a n
    → Same laws h' h'' a n
    → Same laws h h'' a n
Same-trans laws h h' h'' a n f g = λ i lt. g i lt ∙ f i lt

module _ {m : Malloc} (laws : IsAllocator m) {span : ℕ} where
  pub Intact-trans :
      {h h' h'' : m.Heap} {pool pool' pool'' : Pool}
      → Intact laws span h pool h' pool'
      → Intact laws span h' pool' h'' pool''
      → Intact laws span h pool h'' pool''
  Intact-trans {h} {h'} {h''} f g = record {
    good = g.good;
    placed = λ a n p.
        let (p', s) = f.placed a n p in
        let (p'', s') = g.placed a n p' in (p'', Same-trans laws h h' h'' a n s s');
  }

  module _ (h : m.Heap) (pool : Pool) (good : Good laws span h pool) where
    -- what was handed out lies in something that `malloc` returned, and that is no buffer
    pub record Within (a n : ℕ) : Type 0 where
      pub at : ℕ
      pub len : ℕ
      pub taken : laws.Taken h at len
      pub low : at ≤ a
      pub high : a + n ≤ at + len
      pub no_buffer : (q k : ℕ) → Buffer laws h pool q k → at ≢ q

    pub Placed-Within : (a n : ℕ) → Placed laws h pool a n → Within a n
    Placed-Within a n (in_block o) =
        let block = good.inv.blocks.block o.index o.owner o.found in
        record {
          at = o.owner.base;
          len = span;
          taken = good.blocks o.index o.owner o.found;
          low = omega (arith, o.low);
          high = omega (arith, o.high, block.last_le, block.end_is);
          no_buffer = λ q k b e. elim (b.alone.far o.index o.owner o.found) [
            | inl before ↦ omega (arith, before, e, b.alone.some_byte)
            | inr behind ↦ omega (arith, behind, e, block.last_ge, block.last_le)
          ];
        }
    Placed-Within a n (in_large links alone) = record {
      at = a;
      len = n;
      taken = alone.taken;
      low = omega arith;
      high = omega arith;
      no_buffer = λ q k b e. b.unlinked (subst (Links pool.large) e links);
    }

    -- `malloc` from a pool in order is fresh
    pub Good-IsFresh : IsFresh m h pool.blocks
    Good-IsFresh = record {
      aligned = laws.aligned h;
      below = laws.below h;
      apart = λ n base i b e f.
          let block = good.inv.blocks.block i b f in
          elim (laws.apart h n base b.base span e (good.blocks i b f)) [
            | inl before ↦ inl before
            | inr behind ↦ inr (omega (arith, behind, block.end_is))
          ];
    }
