-- ===== src/Pool/Scan.antt =====
-- What the loop of `pool_alloc` in src/pool.c finds.
use libhelp.Base.{
  ℕ, suc, ◌+◌, ◌≡◌, ◌<◌, refl, true, Option, some, List, [], ◌∷◌, arith, leb, ltb, if◌then◌else◌,
  length, get_elem?, Bool-cases, inl, inr,
}
use libhelp.Pool.{Block, Found, fits, full, room, scan, align_ptr}

-- A block with room, at `o` places behind the first one looked at.
pub record FitsAt (size i : ℕ) (bs : List Block) (k at cur : ℕ) : Type 0 where
  pub o : ℕ
  pub block : Block
  pub index : k ≡ i + o
  pub found : get_elem? bs o ≡ some block
  pub at_is : at ≡ align_ptr block.last
  pub has_room : leb size (room block) ≡ true
  pub cur_lt : cur < i + length bs

-- No block has room, and `cur` and `c` are among those looked at.
pub record FullAt (i : ℕ) (bs : List Block) (b : Block) (cur : ℕ) (c : Option ℕ) : Type 0 where
  pub o : ℕ
  pub found : get_elem? bs o ≡ some b
  pub cur_lt : cur < i + length bs
  pub c_lt : (k : ℕ) → c ≡ some k → k < i + length bs

abbrev pub ScanAt : ℕ → ℕ → List Block → Found → Type 0
ScanAt size i bs (fits k at cur) = FitsAt size i bs k at cur
ScanAt size i bs (full b cur c) = FullAt i bs b cur c

ScanAt-cons :
    (size i : ℕ) (b : Block) (bs : List Block) (f : Found)
    → ScanAt size (i + 1) bs f
    → ScanAt size i (b ∷ bs) f
ScanAt-cons size i b bs (fits k at cur) h = record {
  o = suc h.o;
  block = h.block;
  index = omega (arith, h.index);
  found = h.found;
  at_is = h.at_is;
  has_room = h.has_room;
  cur_lt = omega (arith, h.cur_lt);
}
ScanAt-cons size i b bs (full d cur c) h = record {
  o = suc h.o;
  found = h.found;
  cur_lt = omega (arith, h.cur_lt);
  c_lt = λ k e. omega (arith, h.c_lt k e);
}

-- `scan` finds a block with room or none, whatever `c` it begins with.
pub scan-ScanAt :
    (size i c : ℕ) (b : Block) (rest : List Block)
    → c < i + length (b ∷ rest)
    → ScanAt size i (b ∷ rest) (scan size i c b rest)
unfolding scan
scan-ScanAt size i c b [] h = elim (Bool-cases (leb size (room b))) [
  | inl yes_room ↦ rw yes_room (record {
    o = 0;
    block = b;
    index = omega arith;
    found = refl;
    at_is = refl;
    has_room = yes_room;
    cur_lt = h;
  })
  | inr no_room ↦
      rw no_room (record { o = 0; found = refl; cur_lt = h; c_lt = λ k e. ground arith })
]
scan-ScanAt size i c b (d ∷ rest) h = elim (Bool-cases (leb size (room b))) [
  | inl yes_room ↦ rw yes_room (record {
    o = 0;
    block = b;
    index = omega arith;
    found = refl;
    at_is = refl;
    has_room = yes_room;
    cur_lt = h;
  })
  | inr no_room ↦ rw no_room (
      ScanAt-cons size i b (d ∷ rest) _
        (scan-ScanAt size (i + 1) (if ltb (room b) b.rmd then i + 1 else c) d rest (ground arith)))
]
