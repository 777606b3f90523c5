-- ===== src/Pool/Alloc.antt =====
-- `pool_alloc` of src/pool.c hands out aligned memory that no earlier allocation has.
use libhelp.Base.{
  ℕ, ◌+◌, ◌%◌, ◌^◌, ◌≤◌, ◌<◌, ◌≡◌, refl, sym, ap, ◌∙◌, ◌⊎◌, Option, none, some, List, [], ◌∷◌,
  arith, length, length-append, get_elem?, drop, ltb, if-elim, Option-elim_eq, le→ltb, sub64,
}
use libhelp.Pool.{
  Malloc, Block, Pool, Found, fits, full, Made, made, no_memory, Allocated, ok, align_ptr, scan,
  sizeof_pool, alignment, new_block, append_block, place, alloc_small, or_new,
}
use libhelp.Pool.Blocks.{get_elem?-drop, length-set_last, length-drop}
use libhelp.Pool.Grown.{IsBlock, Apart, AreBlocks, Grown, in_place, appended, room_lem}
use libhelp.Pool.Scan.{FitsAt, FullAt, ScanAt, scan-ScanAt}

-- The pool is in order: its blocks are, `cur` is one of them, and a block has room for a node.
pub record IsPool (span : ℕ) (pool : Pool) : Type 0 where
  pub blocks : AreBlocks span pool.blocks
  pub cur_lt : pool.cur < length pool.blocks
  pub span_ge : sizeof_pool + 16 ≤ span

-- What `malloc` promises: what it returns is aligned, in the lower half of the addresses, and apart
-- from the blocks of the pool.
pub record IsFresh (m : Malloc) (heap : m.Heap) (bs : List Block) : Type 0 where
  pub aligned : (n base : ℕ) → (m.malloc heap n).0 ≡ some base → base % alignment ≡ 0
  pub below : (n base : ℕ) → (m.malloc heap n).0 ≡ some base → base + n < 2 ^ 63
  pub apart :
      (n base i : ℕ) (b : Block)
      → (m.malloc heap n).0 ≡ some base
      → get_elem? bs i ≡ some b
      → (base + n ≤ b.base) ⊎ (b.end ≤ base)

-- What an allocation of `size` bytes does. It may return `NULL`, and then no block is changed.
abbrev pub Allocates : {m : Malloc} → ℕ → Pool → ℕ → Allocated m → Type 0
Allocates span pool size (ok none pool' heap) =
    (pool'.blocks ≡ pool.blocks)
    × (pool'.large ≡ pool.large)
    × (pool'.size ≡ pool.size)
    × (pool'.cur < length pool'.blocks)
Allocates span pool size (ok (some at) pool' heap) =
    Grown span pool.blocks size at pool'.blocks
    × (at % alignment ≡ 0)
    × (pool'.large ≡ pool.large)
    × (pool'.cur < length pool'.blocks)
Allocates span pool size Allocated.undefined = ⊥
Allocates span pool size Allocated.out_of_fuel = ⊥

abbrev IsNew : {m : Malloc} → ℕ → List Block → Made m → Type 0
IsNew span bs (made n heap) =
    IsBlock span n
    × (n.last ≡ n.base + sizeof_pool)
    × ((i : ℕ) (b : Block) → get_elem? bs i ≡ some b → Apart n b)
IsNew span bs (no_memory heap) = Unit
IsNew span bs Made.undefined = ⊥

aligned_last :
    {span : ℕ} (n : Block)
    → IsBlock span n
    → n.last ≡ n.base + sizeof_pool
    → align_ptr n.last ≡ n.base + sizeof_pool
unfolding align_ptr
aligned_last n good last_is =
    rw last_is (omega (arith, good.base_aligned, good.end_lt, good.last_ge, good.last_le))

or_new-lt : (c : Option ℕ) (n : ℕ) → ((k : ℕ) → c ≡ some k → k < n) → or_new c n < n + 1
or_new-lt none n h = omega arith
or_new-lt (some k) n h = omega (arith, h k refl)

module _ {m : Malloc} (heap : m.Heap) {span : ℕ} (pool : Pool) (size : ℕ) (inv : IsPool span pool)
    (fresh : IsFresh m heap pool.blocks) (small : size + sizeof_pool ≤ span) where
  new_block-IsNew : (rmd : ℕ) → IsNew span pool.blocks (new_block {m = m} heap span rmd)
  unfolding new_block
  new_block-IsNew rmd = if-elim (IsNew span pool.blocks) (ltb span 0) tt (
      Option-elim_eq (IsNew span pool.blocks) (m.malloc heap span).0 _ _ (λ e. tt)
        (λ base e. rw (le→ltb span sizeof_pool (omega (arith, inv.span_ge))) (
          record {
            base_aligned = fresh.aligned span base e;
            end_is = refl;
            end_lt = omega (arith, fresh.below span base e);
            last_ge = omega arith;
            last_le = omega (arith, inv.span_ge);
          },
          refl,
          λ i b f. fresh.apart span base i b e f,
        )))

  place-fits :
      (i at cur : ℕ)
      → FitsAt size pool.cur (drop pool.cur pool.blocks) i at cur
      → Allocates span pool size (place {m = m} heap pool size (fits i at cur))
  place-fits i at cur f =
      let found : get_elem? pool.blocks i ≡ some f.block =
        ap (get_elem? pool.blocks) f.index
        ∙ sym (get_elem?-drop pool.cur pool.blocks f.o)
        ∙ f.found in
      let (aligned, above, below) =
        room_lem span size f.block inv.blocks.span_aligned (inv.blocks.block i f.block found)
          f.has_room in
      (
        in_place i f.block found (rw f.at_is above) (rw f.at_is below) refl,
        rw f.at_is aligned,
        refl,
        omega (
          arith,
          f.cur_lt,
          length-set_last pool.blocks i (at + size),
          length-drop pool.cur pool.blocks (omega (arith, inv.cur_lt)),
        ),
      )

  append-IsNew :
      (cur : ℕ) (c : Option ℕ) (n : Made m)
      → cur < length pool.blocks
      → ((k : ℕ) → c ≡ some k → k < length pool.blocks)
      → IsNew span pool.blocks n
      → Allocates span pool size (append_block pool size cur c span n)
  append-IsNew cur c (made n heap') h k (good, last_is, far) =
      let at_is : align_ptr n.last ≡ n.base + sizeof_pool = aligned_last n good last_is in
      (
        appended _
            (record {
              base_aligned = good.base_aligned;
              end_is = good.end_is;
              end_lt = good.end_lt;
              last_ge = omega arith;
              last_le = omega (arith, good.end_is);
            })
            (omega arith) refl far refl,
        omega (arith, good.base_aligned),
        refl,
        omega (
          arith,
          or_new-lt c (length pool.blocks) k,
          length-append pool.blocks (record n { last = align_ptr n.last + size } ∷ []),
        ),
      )
  append-IsNew cur c (no_memory heap') h k new = (refl, refl, refl, h)
  append-IsNew cur c Made.undefined h k new = new

  -- the length of every block is the same
  pub span_is :
      (b : Block) (o : ℕ)
      → get_elem? (drop pool.cur pool.blocks) o ≡ some b
      → sub64 b.end b.base ≡ span
  unfolding sub64
  span_is b o e =
      let good = inv.blocks.block _ b (sym (get_elem?-drop pool.cur pool.blocks o) ∙ e) in
      omega (arith, good.end_is, good.end_lt)

  place-full :
      (b : Block) (cur : ℕ) (c : Option ℕ)
      → FullAt pool.cur (drop pool.cur pool.blocks) b cur c
      → Allocates span pool size (place {m = m} heap pool size (full b cur c))
  place-full b cur c f =
      let all : length (drop pool.cur pool.blocks) + pool.cur ≡ length pool.blocks =
        length-drop pool.cur pool.blocks (omega (arith, inv.cur_lt)) in
      rw (span_is b f.o f.found) (
        append-IsNew cur c (new_block heap span b.rmd) (omega (arith, f.cur_lt))
          (λ k e. omega (arith, f.c_lt k e)) (new_block-IsNew b.rmd))

  -- To prove a property of the result, prove it of what follows each end of the loop.
  pub alloc_small-elim :
      (P : Allocated m → Type 0)
      → ((f : Found)
          → ScanAt size pool.cur (drop pool.cur pool.blocks) f
          → P (place {m = m} heap pool size f))
      → P (alloc_small {m = m} heap pool size)
  unfolding alloc_small
  alloc_small-elim P placed = go (drop pool.cur pool.blocks) refl
    where
      go :
          (l : List Block)
          → drop pool.cur pool.blocks ≡ l
          → P (elim l [
            | [] ↦ Allocated.undefined
            | b ∷ rest ↦ place {m = m} heap pool size (scan size pool.cur pool.cur b rest)
          ])
      go [] e = absurd (
          omega (
            arith,
            ap length e,
            inv.cur_lt,
            length-drop pool.cur pool.blocks (omega (arith, inv.cur_lt)),
          ))
      go (b ∷ rest) e =
          placed (scan size pool.cur pool.cur b rest)
            (rw e (scan-ScanAt size pool.cur pool.cur b rest (omega arith)))

  -- With enough room behind the `pool_t` of a block, the loop finds a place or asks for a block.
  pub alloc_small-Allocates : Allocates span pool size (alloc_small {m = m} heap pool size)
  alloc_small-Allocates = alloc_small-elim (Allocates span pool size) placed
    where
      placed :
          (f : Found)
          → ScanAt size pool.cur (drop pool.cur pool.blocks) f
          → Allocates span pool size (place {m = m} heap pool size f)
      placed (fits i at cur) h = place-fits i at cur h
      placed (full b cur c) h = place-full b cur c h
