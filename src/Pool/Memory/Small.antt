-- ===== src/Pool/Memory/Small.antt =====
-- A small allocation of src/pool.c in a heap with the laws of `malloc`.
use libhelp.Base.{
  ℕ, ◌+◌, ◌≤◌, ◌≡◌, refl, sym, ap, subst, ◌∙◌, ◌⊎◌, inl, inr, none, some, List, [], ◌∷◌, ◌++◌,
  arith, get_elem?, eq_of_some,
}
use libhelp.Pool.{Malloc, Block, Pool, Allocated, ok, alloc_small, sizeof_pool}
use libhelp.Pool.Alloc.{Allocates, alloc_small-Allocates}
use libhelp.Pool.Apart.{Origin, old_one, new_one, origin}
use libhelp.Pool.Blocks.{lt_of_get_elem?, get_elem?-append_length}
use libhelp.Pool.Memory.{
  IsAllocator, Links, Alone, Good, Placed, in_block, in_large, Same, Intact, KeepsBuffers,
  Good-IsFresh, Placed-Within,
}
use libhelp.Pool.Memory.Asks.{Asks, nothing, refused, granted, AsksIn, alloc_small-Asks}
use libhelp.Pool.Memory.Steps.{within_same}
use libhelp.Pool.Serve.{Keeps, Hands, Allocates-ServesSmall}

module _ {m : Malloc} (laws : IsAllocator m) {span : ℕ} (h h' : m.Heap) {pool : Pool}
    (good : Good laws span h pool) where
  asked : {old new : List Block} → Asks m h span old new h' → (h' ≡ h) ⊎ (h' ≡ (m.malloc h span).1)
  asked (nothing e l) = inl e
  asked (refused e l) = inr e
  asked (granted n e l f) = inr e

  taken_kept :
      {old new : List Block}
      → Asks m h span old new h'
      → (a n : ℕ) → laws.Taken h a n
      → laws.Taken h' a n
  taken_kept asks a n t = elim (asked asks) [
    | inl e ↦ rw e t
    | inr e ↦ rw e (laws.malloc_taken h span a n t)
  ]

  byte_kept :
      {old new : List Block}
      → Asks m h span old new h'
      → (a n : ℕ) → laws.Taken h a n
      → Same laws h h' a n
  byte_kept asks a n t i lt = elim (asked asks) [
    | inl e ↦ rw e refl
    | inr e ↦ rw e (laws.malloc_byte h span a n i t lt)
  ]

  -- a block afterwards stands where one stood before, or it is what `malloc` returned
  comes :
      {old new : List Block} (k : ℕ) (d : Block)
      → Asks m h span old new h'
      → Origin old k d
      → get_elem? new k ≡ some d
      → ((b : Block) × (get_elem? old k ≡ some b) × (d.base ≡ b.base) × (d.end ≡ b.end))
        ⊎ (((m.malloc h span).0 ≡ some d.base) × (h' ≡ (m.malloc h span).1))
  comes k d asks (old_one b e p q) f = inl (b, e, p, q)
  comes {new = new} k d (nothing e l) (new_one is far) f =
      absurd (omega (arith, is, l, lt_of_get_elem? new k f))
  comes {new = new} k d (refused e l) (new_one is far) f =
      absurd (omega (arith, is, l, lt_of_get_elem? new k f))
  comes {old} k d (granted n e l g) (new_one is far) f =
      let same : n ≡ d = eq_of_some (
        sym (get_elem?-append_length old n)
        ∙ ap (get_elem? (old ++ (n ∷ []))) (sym is)
        ∙ ap (λ bs. get_elem? bs k) (sym l)
        ∙ f) in
      inr (g ∙ ap (λ (x : Block). some x.base) same, e)

  module _ (pool' : Pool) (asks : Asks m h span pool.blocks pool'.blocks h')
      (origins : (k : ℕ) (d : Block) → get_elem? pool'.blocks k ≡ some d → Origin pool.blocks k d)
      (keeps : Keeps span pool pool') (same_large : pool'.large ≡ pool.large) where
    alone_kept : (a n : ℕ) → Alone laws h pool.blocks a n → Alone laws h' pool'.blocks a n
    alone_kept a n x = record {
      some_byte = x.some_byte;
      taken = taken_kept asks a n x.taken;
      far = λ k d f. elim (comes k d asks (origins k d f) f) [
        | inl (b, e, p, q) ↦ elim (x.far k b e) [
          | inl before ↦ inl (omega (arith, before, p))
          | inr behind ↦ inr (omega (arith, behind, q))
        ]
        | inr (e, g) ↦
            let block = keeps.kept.blocks.block k d f in
            elim (laws.apart h span d.base a n e x.taken) [
              | inl before ↦ inr (omega (arith, before, block.end_is))
              | inr behind ↦ inl behind
            ]
      ];
    }

    block_taken :
        (k : ℕ) (d : Block) → get_elem? pool'.blocks k ≡ some d → laws.Taken h' d.base span
    block_taken k d f = elim (comes k d asks (origins k d f) f) [
      | inl (b, e, p, q) ↦ rw p (taken_kept asks b.base span (good.blocks k b e))
      | inr (e, g) ↦ rw g (laws.taken h span d.base e)
    ]

    grown-Intact : Intact laws span h pool h' pool'
    grown-Intact = record {
      good = record {
        inv = keeps.kept;
        blocks = block_taken;
        large = λ a l.
            let (n, x) = good.large a (subst (λ ls. Links ls a) same_large l) in
            (n, alone_kept a n x);
      };
      placed = λ a n p.
          let w = Placed-Within laws h pool good a n p in
          (
            placed_kept a n p,
            within_same laws h pool good h' a n w (byte_kept asks w.at w.len w.taken),
          );
    }
      where
        placed_kept : (a n : ℕ) → Placed laws h pool a n → Placed laws h' pool' a n
        placed_kept a n (in_block o) = in_block (keeps.still_owned a n o)
        placed_kept a n (in_large l x) =
            in_large (subst (λ ls. Links ls a) (sym same_large) l) (alone_kept a n x)

    grown-KeepsBuffers : KeepsBuffers laws h pool h' pool' (λ a. Unit)
    grown-KeepsBuffers a n s b = record {
      alone = alone_kept a n b.alone;
      unlinked = λ l. b.unlinked (subst (λ ls. Links ls a) same_large l);
    }

-- What an allocation does to the memory. The bytes that it hands out were not handed out before.
abbrev pub Serves : {m : Malloc} → IsAllocator m → ℕ → m.Heap → Pool → ℕ → Allocated m → Type 0
Serves laws span h pool size (ok none pool' h') =
    Intact laws span h pool h' pool' × KeepsBuffers laws h pool h' pool' (λ a. Unit)
Serves laws span h pool size (ok (some at) pool' h') =
    Intact laws span h pool h' pool'
    × KeepsBuffers laws h pool h' pool' (λ a. Unit)
    × Placed laws h' pool' at size
    × ((a n : ℕ) → Placed laws h pool a n → (a + n ≤ at) ⊎ (at + size ≤ a))
Serves laws span h pool size Allocated.undefined = ⊥
Serves laws span h pool size Allocated.out_of_fuel = ⊥

module _ {m : Malloc} (laws : IsAllocator m) {span : ℕ} (h : m.Heap) (pool : Pool)
    (good : Good laws span h pool) (size : ℕ) where
  abbrev Origins : Pool → Type 0
  Origins pool' = (k : ℕ) (d : Block) → get_elem? pool'.blocks k ≡ some d → Origin pool.blocks k d

  -- bytes in a block after the call lie apart from what `malloc` returned before to others
  disjoint_lem :
      (h' : m.Heap) (pool' : Pool) (at : ℕ)
      → Hands span pool size at pool'
      → ((a n : ℕ) → Alone laws h pool.blocks a n → Alone laws h' pool'.blocks a n)
      → (a n : ℕ) → Placed laws h pool a n
      → (a + n ≤ at) ⊎ (at + size ≤ a)
  disjoint_lem h' pool' at s kept a n (in_block o) = s.disjoint a n o
  disjoint_lem h' pool' at s kept a n (in_large l x) =
      let o = s.owned in
      let block = s.keeps.kept.blocks.block o.index o.owner o.found in
      elim ((kept a n x).far o.index o.owner o.found) [
        | inl before ↦ inl (omega (arith, before, o.low))
        | inr behind ↦ inr (omega (arith, behind, o.high, block.last_le))
      ]

  served :
      (r : Allocated m)
      → AsksIn h span pool r
      → Allocates span pool size r
      → Serves laws span h pool size r
  served (ok none pool' h') asks a =
      let (keeps, l) = Allocates-ServesSmall {m = m} pool size good.inv (ok none pool' h') a in
      let origins : Origins pool' =
        λ k d f. old_one d (ap (λ bs. get_elem? bs k) (sym a.0) ∙ f) refl refl in
      (
        grown-Intact laws h h' good pool' asks origins keeps l,
        grown-KeepsBuffers laws h h' good pool' asks origins keeps l,
      )
  served (ok (some at) pool' h') asks a =
      let s = Allocates-ServesSmall {m = m} pool size good.inv (ok (some at) pool' h') a in
      let origins : Origins pool' = λ k d f. origin good.inv.blocks k d a.0 f in
      (
        grown-Intact laws h h' good pool' asks origins s.keeps s.same_large,
        grown-KeepsBuffers laws h h' good pool' asks origins s.keeps s.same_large,
        in_block s.owned,
        disjoint_lem h' pool' at s
            (alone_kept laws h h' good pool' asks origins s.keeps s.same_large),
      )
  served Allocated.undefined asks a = a
  served Allocated.out_of_fuel asks a = a

  pub alloc_small-Serves :
      size + sizeof_pool ≤ span → Serves laws span h pool size (alloc_small {m = m} h pool size)
  alloc_small-Serves small =
      let fresh = Good-IsFresh laws h pool good in
      served (alloc_small h pool size) (alloc_small-Asks h pool size good.inv fresh small)
        (alloc_small-Allocates h pool size good.inv fresh small)
