-- ===== src/Pool/Grown.antt =====
-- The invariant of a pool of src/pool.c, and what one allocation does to its blocks.
use libhelp.Base.{
  ℕ, ◌+◌, ◌%◌, ◌≤◌, ◌<◌, ◌≡◌, ◌≢◌, sym, ap, subst, ◌∙◌, ◌⊎◌, inl, inr, true, some, List, [], ◌∷◌,
  ◌++◌, arith, length, get_elem?, leb, eq_of_some, word, sub64,
}
use libhelp.Pool.{Block, set_last, align_ptr, room, sizeof_pool, alignment}
use libhelp.Pool.Blocks.{
  get_elem?-set_last_self, get_elem?-set_last_ne, get_elem?-append_some, get_elem?-append_length,
  get_elem?-append_inv,
}
use native.Mathlib.Decide.{ℕ_discrete}

-- A block of `span` bytes: aligned, and filled from behind its `pool_t` up to `last`.
pub record IsBlock (span : ℕ) (b : Block) : Type 0 where
  pub base_aligned : b.base % alignment ≡ 0
  pub end_is : b.end ≡ b.base + span
  pub end_lt : b.end + alignment < word
  pub last_ge : b.base + sizeof_pool ≤ b.last
  pub last_le : b.last ≤ b.end

abbrev pub Apart : Block → Block → Type 0
Apart b d = (b.end ≤ d.base) ⊎ (d.end ≤ b.base)

-- All blocks of a pool are as long as the first, a multiple of the word, and lie apart.
pub record AreBlocks (span : ℕ) (bs : List Block) : Type 0 where
  pub span_aligned : span % alignment ≡ 0
  pub block : (i : ℕ) (b : Block) → get_elem? bs i ≡ some b → IsBlock span b
  pub apart :
      (i k : ℕ) (b d : Block)
      → i ≢ k
      → get_elem? bs i ≡ some b
      → get_elem? bs k ≡ some d
      → Apart b d

-- `n` bytes at `a` that were handed out: they lie between the `pool_t` and the `last` of a block.
pub record Owned (bs : List Block) (a n : ℕ) : Type 0 where
  pub index : ℕ
  pub owner : Block
  pub found : get_elem? bs index ≡ some owner
  pub low : owner.base + sizeof_pool ≤ a
  pub high : a + n ≤ owner.last

-- One allocation of `size` bytes at `at`: a block's `last` is moved up, or a block is appended.
pub data Grown (span : ℕ) (old : List Block) (size at : ℕ) (new : List Block) : Type 0 where
  in_place :
      (i : ℕ) (b : Block)
      → get_elem? old i ≡ some b
      → b.last ≤ at
      → at + size ≤ b.end
      → new ≡ set_last old i (at + size)
      → Grown span old size at new
  appended :
      (n : Block)
      → IsBlock span n
      → n.base + sizeof_pool ≤ at
      → n.last ≡ at + size
      → ((i : ℕ) (b : Block) → get_elem? old i ≡ some b → Apart n b)
      → new ≡ old ++ (n ∷ [])
      → Grown span old size at new

-- An aligned block with room for `size` bytes has them between its aligned `last` and its end.
pub room_lem :
    (span size : ℕ) (b : Block)
    → span % alignment ≡ 0
    → IsBlock span b
    → leb size (room b) ≡ true
    → (align_ptr b.last % alignment ≡ 0)
      × (b.last ≤ align_ptr b.last)
      × (align_ptr b.last + size ≤ b.end)
unfolding align_ptr sub64
room_lem span size b s h r = ground (arith, h.base_aligned, h.end_is, h.end_lt, h.last_le)

same_block :
    (bs : List Block) (i k : ℕ) {b d : Block}
    → i ≡ k
    → get_elem? bs i ≡ some b
    → get_elem? bs k ≡ some d
    → (b.base ≡ d.base) × (b.last ≡ d.last)
same_block bs i k {b} {d} s e f =
    let h : b ≡ d = eq_of_some (sym e ∙ ap (get_elem? bs) s ∙ f) in
    (ap (λ (x : Block). x.base) h, ap (λ (x : Block). x.last) h)

module _ {span size at : ℕ} {old new : List Block} (all : AreBlocks span old) where
  -- what is handed out is owned afterwards
  pub Owned-new : Grown span old size at new → Owned new at size
  Owned-new (in_place i b e lo hi eq) = record {
    index = i;
    owner = record b { last = at + size };
    found = rw eq (get_elem?-set_last_self old i (at + size) e);
    low = omega (arith, (all.block i b e).last_ge);
    high = omega arith;
  }
  Owned-new (appended n h lo l far eq) = record {
    index = length old;
    owner = n;
    found = rw eq (get_elem?-append_length old n);
    low = lo;
    high = omega arith;
  }

  -- what was handed out before stays so
  pub Owned-mono : {a n : ℕ} → Grown span old size at new → Owned old a n → Owned new a n
  Owned-mono {a} {n} (in_place i b e lo hi eq) o = elim (ℕ_discrete i o.index) [
    | yes same ↦
        let (bases, lasts) = same_block old i o.index same e o.found in
        record {
          index = i;
          owner = record b { last = at + size };
          found = rw eq (get_elem?-set_last_self old i (at + size) e);
          low = omega (arith, o.low);
          high = omega (arith, o.high);
        }
    | no other ↦ record {
      index = o.index;
      owner = o.owner;
      found = rw eq (get_elem?-set_last_ne old i o.index (at + size) other ∙ o.found);
      low = o.low;
      high = o.high;
    }
  ]
  Owned-mono (appended k h lo l far eq) o = record {
    index = o.index;
    owner = o.owner;
    found = rw eq (get_elem?-append_some old (k ∷ []) o.index o.found);
    low = o.low;
    high = o.high;
  }

  -- and shares no byte with it
  pub Owned-disjoint :
      {a n : ℕ} → Grown span old size at new → Owned old a n → (a + n ≤ at) ⊎ (at + size ≤ a)
  Owned-disjoint {a} {n} (in_place i b e lo hi eq) o = elim (ℕ_discrete i o.index) [
    | yes same ↦
        let (bases, lasts) = same_block old i o.index same e o.found in inl (omega (arith, o.high))
    | no other ↦
        let mine = all.block i b e in
        let theirs = all.block o.index o.owner o.found in
        elim (all.apart i o.index b o.owner other e o.found) [
          | inl below ↦ inr (omega (arith, o.low))
          | inr above ↦ inl (omega (arith, o.high, theirs.last_le, mine.last_ge))
        ]
  ]
  Owned-disjoint (appended k h lo l far eq) o =
      let theirs = all.block o.index o.owner o.found in
      elim (far o.index o.owner o.found) [
        | inl below ↦ inr (omega (arith, o.low, h.last_le))
        | inr above ↦ inl (omega (arith, o.high, theirs.last_le))
      ]

  -- `AreBlocks` is kept
  pub Grown-block :
      (k : ℕ) (d : Block) → Grown span old size at new → get_elem? new k ≡ some d → IsBlock span d
  Grown-block k d (in_place i b e lo hi eq) f = elim (ℕ_discrete i k) [
    | yes same ↦
        let mine = all.block i b e in
        let d_is : record b { last = at + size } ≡ d = eq_of_some (
          sym (get_elem?-set_last_self old i (at + size) e)
          ∙ ap (λ bs. get_elem? bs i) (sym eq)
          ∙ ap (get_elem? new) same
          ∙ f) in
        subst (IsBlock span) d_is (record {
          base_aligned = mine.base_aligned;
          end_is = mine.end_is;
          end_lt = mine.end_lt;
          last_ge = omega (arith, mine.last_ge);
          last_le = hi;
        })
    | no other ↦ all.block k d (
        sym (get_elem?-set_last_ne old i k (at + size) other)
        ∙ ap (λ bs. get_elem? bs k) (sym eq)
        ∙ f)
  ]
  Grown-block k d (appended n h lo l far eq) f =
      elim (get_elem?-append_inv old n k (ap (λ bs. get_elem? bs k) (sym eq) ∙ f)) [
        | inl before ↦ all.block k d before
        | inr new_one ↦ subst (IsBlock span) (sym new_one.1) h
      ]
