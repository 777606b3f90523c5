-- ===== src/Pool/Memory/Steps.antt =====
-- What `malloc`, `free` and a store do to the memory of a pool of src/pool.c.
use libhelp.Base.{
  ℕ, ◌+◌, ◌-◌, ◌≤◌, ◌<◌, ◌≡◌, ◌≢◌, refl, sym, subst, ◌⊎◌, inl, inr, some, ◌∷◌, Bytes, arith,
  get_elem?, length,
}
use libhelp.Pool.{Malloc, Block, Pool}
use libhelp.Pool.Memory.{
  IsAllocator, Links, Alone, Good, Placed, in_block, in_large, Buffer, Same, Intact, KeepsBuffers,
  Within, Placed-Within,
}

module _ {m : Malloc} (laws : IsAllocator m) {span : ℕ} (h : m.Heap) (pool : Pool)
    (good : Good laws span h pool) where
  -- A step of the heap alone that keeps whatever does not lie at a spared address.
  module _ (h' : m.Heap) (Spared : ℕ → Type 0)
      (taken : (a k : ℕ) → Spared a → laws.Taken h a k → laws.Taken h' a k) where
    alone_kept : (a n : ℕ) → Spared a → Alone laws h pool.blocks a n → Alone laws h' pool.blocks a n
    alone_kept a n s x = record {
      some_byte = x.some_byte;
      taken = taken a n s x.taken;
      far = x.far;
    }

    pub buffers_kept : KeepsBuffers laws h pool h' pool Spared
    buffers_kept a n s b = record { alone = alone_kept a n s b.alone; unlinked = b.unlinked }

    module _ (blocks : (i : ℕ) (b : Block) → get_elem? pool.blocks i ≡ some b → Spared b.base)
        (linked : (a : ℕ) → Links pool.large a → Spared a) where
      pub kept-Good : Good laws span h' pool
      kept-Good = record {
        inv = good.inv;
        blocks = λ i b f. taken b.base span (blocks i b f) (good.blocks i b f);
        large = λ a l. let (n, x) = good.large a l in (n, alone_kept a n (linked a l) x);
      }

      pub placed_kept : (a n : ℕ) → Placed laws h pool a n → Placed laws h' pool a n
      placed_kept a n (in_block o) = in_block o
      placed_kept a n (in_large l x) = in_large l (alone_kept a n (linked a l) x)

  -- what stands in something taken stays if that does
  pub within_same :
      (h' : m.Heap) (a n : ℕ) (w : Within laws h pool good a n)
      → ((i : ℕ) → i < w.len → laws.byte h' (w.at + i) ≡ laws.byte h (w.at + i))
      → Same laws h h' a n
  within_same h' a n w f i lt =
      let e : w.at + (a - w.at + i) ≡ a + i = omega (arith, w.low) in
      subst (λ x. laws.byte h' x ≡ laws.byte h x) e
        (f (a - w.at + i) (omega (arith, w.low, w.high, lt)))

  -- `malloc` disturbs nothing, and what it returns is a new buffer
  pub malloc-Intact : (n : ℕ) → Intact laws span h pool (m.malloc h n).1 pool
  malloc-Intact n = record {
    good =
        kept-Good (m.malloc h n).1 (λ a. Unit) (λ a k s t. laws.malloc_taken h n a k t)
          (λ i b f. tt) (λ a l. tt);
    placed = λ a k p.
        let w = Placed-Within laws h pool good a k p in
        (
          placed_kept (m.malloc h n).1 (λ a. Unit) (λ a k s t. laws.malloc_taken h n a k t)
              (λ i b f. tt) (λ a l. tt) a k p,
          within_same (m.malloc h n).1 a k w (λ i lt. laws.malloc_byte h n w.at w.len i w.taken lt),
        );
  }

  pub malloc-KeepsBuffers : (n : ℕ) → KeepsBuffers laws h pool (m.malloc h n).1 pool (λ a. Unit)
  malloc-KeepsBuffers n = buffers_kept (m.malloc h n).1 _ (λ a k s t. laws.malloc_taken h n a k t)

  module _ (n p : ℕ) (some_byte : 0 < n) (e : (m.malloc h n).0 ≡ some p) where
    new_far : (a k : ℕ) → 0 < k → laws.Taken h a k → p ≢ a
    new_far a k nz t q = elim (laws.apart h n p a k e t) [
      | inl before ↦ omega (arith, before, some_byte, q)
      | inr behind ↦ omega (arith, behind, nz, q)
    ]

    pub malloc-Buffer : Buffer laws (m.malloc h n).1 pool p n
    malloc-Buffer = record {
      alone = record {
        some_byte = some_byte;
        taken = laws.taken h n p e;
        far = λ i b f.
            let block = good.inv.blocks.block i b f in
            elim (laws.apart h n p b.base span e (good.blocks i b f)) [
              | inl before ↦ inl before
              | inr behind ↦ inr (omega (arith, behind, block.end_is))
            ];
      };
      unlinked = λ l. let (k, x) = good.large p l in new_far p k x.some_byte x.taken refl;
    }

    -- no buffer has its address
    pub malloc-new : (a k : ℕ) → Buffer laws h pool a k → a ≢ p
    malloc-new a k b q = new_far a k b.alone.some_byte b.alone.taken (sym q)

    -- and no byte of it was handed out
    pub malloc-disjoint : (a k : ℕ) → Placed laws h pool a k → (a + k ≤ p) ⊎ (p + n ≤ a)
    malloc-disjoint a k x =
        let w = Placed-Within laws h pool good a k x in
        elim (laws.apart h n p w.at w.len e w.taken) [
          | inl before ↦ inr (omega (arith, before, w.low))
          | inr behind ↦ inl (omega (arith, behind, w.high))
        ]

  -- `free` of a buffer disturbs neither the pool nor the other buffers
  module _ (q k : ℕ) (buffer : Buffer laws h pool q k) where
    block_ne : (i : ℕ) (b : Block) → get_elem? pool.blocks i ≡ some b → b.base ≢ q
    block_ne i b f e =
        let block = good.inv.blocks.block i b f in
        elim (buffer.alone.far i b f) [
          | inl before ↦ omega (arith, before, e, buffer.alone.some_byte)
          | inr behind ↦ omega (arith, behind, e, block.last_ge, block.last_le)
        ]

    linked_ne : (a : ℕ) → Links pool.large a → a ≢ q
    linked_ne a l e = buffer.unlinked (subst (Links pool.large) e l)

    pub free-Intact : Intact laws span h pool (m.free h q) pool
    free-Intact = record {
      good =
          kept-Good (m.free h q) (λ a. a ≢ q) (λ a n. laws.free_taken h q a n) block_ne linked_ne;
      placed = λ a n p.
          let w = Placed-Within laws h pool good a n p in
          (
            placed_kept (m.free h q) (λ a. a ≢ q) (λ a n. laws.free_taken h q a n) block_ne
                linked_ne a n p,
            within_same (m.free h q) a n w
                (λ i lt. laws.free_byte h q w.at w.len i (w.no_buffer q k buffer) w.taken lt),
          );
    }

    pub free-KeepsBuffers : KeepsBuffers laws h pool (m.free h q) pool (λ a. a ≢ q)
    free-KeepsBuffers = buffers_kept (m.free h q) _ (λ a n. laws.free_taken h q a n)

  -- a store disturbs nothing that it does not reach
  module _ (p : ℕ) (bytes : Bytes) where
    pub write-Good : Good laws span (m.write h p bytes) pool
    write-Good =
        kept-Good (m.write h p bytes) (λ a. Unit) (λ a n s. laws.write_taken h p bytes a n)
          (λ i b f. tt) (λ a l. tt)

    pub write-Placed : (a n : ℕ) → Placed laws h pool a n → Placed laws (m.write h p bytes) pool a n
    write-Placed =
        placed_kept (m.write h p bytes) (λ a. Unit) (λ a n s. laws.write_taken h p bytes a n)
          (λ i b f. tt) (λ a l. tt)

    pub write-KeepsBuffers : KeepsBuffers laws h pool (m.write h p bytes) pool (λ a. Unit)
    write-KeepsBuffers =
        buffers_kept (m.write h p bytes) _ (λ a n s. laws.write_taken h p bytes a n)

    pub write-Same :
        (a n : ℕ) → (a + n ≤ p) ⊎ (p + length bytes ≤ a) → Same laws h (m.write h p bytes) a n
    write-Same a n (inl before) i lt =
        laws.write_else h p bytes (a + i) (inl (omega (arith, before, lt)))
    write-Same a n (inr behind) i lt =
        laws.write_else h p bytes (a + i) (inr (omega (arith, behind)))

  -- A buffer that is linked in `large` is handed out by the pool.
  module _ (l q k size : ℕ) (buffer : Buffer laws h pool q k) where
    abbrev with_link : Pool
    with_link = record pool { large = (l, q) ∷ pool.large; size = size }

    pub link-Good : Good laws span h with_link
    link-Good = record {
      inv = record {
        blocks = good.inv.blocks;
        cur_lt = good.inv.cur_lt;
        span_ge = good.inv.span_ge;
      };
      blocks = good.blocks;
      large = λ a x. elim x [
        | inl e ↦ (k, subst (λ c. Alone laws h pool.blocks c k) e buffer.alone)
        | inr old ↦ good.large a old
      ];
    }

    pub link-Placed : (a n : ℕ) → Placed laws h pool a n → Placed laws h with_link a n
    link-Placed a n (in_block o) = in_block o
    link-Placed a n (in_large x y) = in_large (inr x) y

    pub link-new : Placed laws h with_link q k
    link-new = in_large (inl refl) buffer.alone

    pub link-KeepsBuffers : KeepsBuffers laws h pool h with_link (λ a. a ≢ q)
    link-KeepsBuffers a n s b = record {
      alone = b.alone;
      unlinked = λ x. elim x [ inl e ↦ s (sym e) | inr old ↦ b.unlinked old ];
    }
