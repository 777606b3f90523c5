-- ===== src/Pool/Free.antt =====
-- `pool_free` of src/pool.c in a pool in order.
use libhelp.Base.{
  ℕ, ◌+◌, ◌≤◌, ◌<◌, ◌≡◌, ◌⊎◌, refl, sym, ap, ◌∙◌, inl, inr, Bool-cases, Option-elim_eq, some, List,
  arith, get_elem?, eq_of_some, ◌==◌, ==_iff,
}
use libhelp.Pool.{Block, Pool, set_last, pool_free, sizeof_pool}
use libhelp.Pool.Alloc.{IsPool}
use libhelp.Pool.Blocks.{length-set_last, get_elem?-set_last_self, get_elem?-set_last_ne}
use libhelp.Pool.Grown.{IsBlock, AreBlocks, Owned}
use native.Mathlib.Decide.{ℕ_discrete}

module _ {span : ℕ} {bs : List Block} (all : AreBlocks span bs) (i : ℕ) (b : Block)
    (e : get_elem? bs i ≡ some b) where
  -- a block that `set_last` leaves is an old one but for `last`
  record Origin (v k : ℕ) (d : Block) : Type 0 where
    old : Block
    found : get_elem? bs k ≡ some old
    same_base : d.base ≡ old.base
    same_end : d.end ≡ old.end
    last_is : (d.last ≡ old.last) ⊎ ((d.last ≡ v) × (old ≡ b))

  set_last-Origin : (v k : ℕ) (d : Block) → get_elem? (set_last bs i v) k ≡ some d → Origin v k d
  set_last-Origin v k d f = elim (ℕ_discrete i k) [
    | yes same ↦
        let d_is : record b { last = v } ≡ d =
          eq_of_some
            (sym (get_elem?-set_last_self bs i v e) ∙ ap (get_elem? (set_last bs i v)) same ∙ f) in
        record {
          old = b;
          found = ap (get_elem? bs) (sym same) ∙ e;
          same_base = ap (λ (x : Block). x.base) (sym d_is);
          same_end = ap (λ (x : Block). x.end) (sym d_is);
          last_is = inr (ap (λ (x : Block). x.last) (sym d_is), refl);
        }
    | no other ↦ record {
      old = d;
      found = sym (get_elem?-set_last_ne bs i k v other) ∙ f;
      same_base = refl;
      same_end = refl;
      last_is = inl refl;
    }
  ]

  module _ (v : ℕ) (low : b.base + sizeof_pool ≤ v) (high : v ≤ b.last) where
    Origin-IsBlock : (k : ℕ) (d : Block) → Origin v k d → IsBlock span d
    Origin-IsBlock k d o =
        let good = all.block k o.old o.found in
        let ends : (d.base + sizeof_pool ≤ d.last) × (d.last ≤ d.end) = elim o.last_is [
          | inl same ↦ (
            omega (arith, good.last_ge, same, o.same_base),
            omega (arith, good.last_le, same, o.same_end),
          )
          | inr (is_v, is_b) ↦
              let at_base : o.old.base ≡ b.base = ap (λ (x : Block). x.base) is_b in
              let at_last : o.old.last ≡ b.last = ap (λ (x : Block). x.last) is_b in
              (
                omega (arith, low, is_v, at_base, o.same_base),
                omega (arith, high, is_v, at_last, good.last_le, o.same_end),
              )
        ] in
        record {
          base_aligned = rw o.same_base good.base_aligned;
          end_is = omega (arith, good.end_is, o.same_base, o.same_end);
          end_lt = omega (arith, good.end_lt, o.same_end);
          last_ge = ends.0;
          last_le = ends.1;
        }

    set_last-AreBlocks : AreBlocks span (set_last bs i v)
    set_last-AreBlocks = record {
      span_aligned = all.span_aligned;
      block = λ k d f. Origin-IsBlock k d (set_last-Origin v k d f);
      apart = λ k k' d d' ne f f'.
          let o = set_last-Origin v k d f in
          let o' = set_last-Origin v k' d' f' in
          elim (all.apart k k' o.old o'.old ne o.found o'.found) [
            | inl h ↦ inl (omega (arith, h, o.same_end, o'.same_base))
            | inr h ↦ inr (omega (arith, h, o'.same_end, o.same_base))
          ];
    }

    -- what does not reach above `v` is still handed out
    Owned-set_last :
        (a n : ℕ) (o : Owned bs a n) → ((i ≡ o.index) → a + n ≤ v) → Owned (set_last bs i v) a n
    Owned-set_last a n o h = elim (ℕ_discrete i o.index) [
      | yes same ↦
          let is_b : b ≡ o.owner = eq_of_some (sym e ∙ ap (get_elem? bs) same ∙ o.found) in
          record {
            index = i;
            owner = record b { last = v };
            found = get_elem?-set_last_self bs i v e;
            low = omega (arith, o.low, ap (λ (x : Block). x.base) is_b);
            high = h same;
          }
      | no other ↦ record {
        index = o.index;
        owner = o.owner;
        found = get_elem?-set_last_ne bs i o.index v other ∙ o.found;
        low = o.low;
        high = o.high;
      }
    ]

  -- bytes that end at the `last` of a block stand in it
  Owned-here : (p size : ℕ) → Owned bs p size → b.last ≡ p + size → b.base + sizeof_pool ≤ p
  Owned-here p size o h = elim (ℕ_discrete i o.index) [
    | yes same ↦
        let is_b : b ≡ o.owner = eq_of_some (sym e ∙ ap (get_elem? bs) same ∙ o.found) in
        omega (arith, o.low, ap (λ (x : Block). x.base) is_b)
    | no other ↦
        let good = all.block i b e in
        let good' = all.block o.index o.owner o.found in
        elim (all.apart i o.index b o.owner other e o.found) [
          | inl below ↦ absurd (omega (arith, below, good.last_le, o.low, h))
          | inr above ↦ absurd (omega (arith, above, good.last_ge, good'.last_le, o.high, h))
        ]
  ]

-- `pool_free` of bytes that were handed out, in a pool in order: the pool stays in order, and other bytes
-- that were handed out, at least one and apart from these, still are.
pub pool_free-Owned :
    {span : ℕ} (pool : Pool) (p size a n : ℕ)
    → IsPool span pool
    → Owned pool.blocks p size
    → Owned pool.blocks a n
    → 0 < n
    → (a + n ≤ p) ⊎ (p + size ≤ a)
    → IsPool span (pool_free pool p size) × Owned (pool_free pool p size).blocks a n
unfolding pool_free
pool_free-Owned {span} pool p size a n inv mine o some_byte apart =
    Option-elim_eq (λ r. IsPool span r × Owned r.blocks a n) (get_elem? pool.blocks pool.cur) pool _
      (λ e. (inv, o))
      (λ b e. elim (Bool-cases (b.last == p + size)) [
        | inr q ↦ rw q (inv, o)
        | inl q ↦
            let ends : b.last ≡ p + size = (==_iff b.last (p + size)).0 q in
            let low = Owned-here inv.blocks pool.cur b e p size mine ends in
            let high : p ≤ b.last = omega (arith, ends) in
            let below : (pool.cur ≡ o.index) → a + n ≤ p = λ same.
              let is_b : b ≡ o.owner =
                eq_of_some (sym e ∙ ap (get_elem? pool.blocks) same ∙ o.found) in
              let top : o.owner.last ≡ p + size = ap (λ (x : Block). x.last) (sym is_b) ∙ ends in
              elim apart [
                | inl h ↦ h
                | inr h ↦ absurd (omega (arith, h, o.high, top, some_byte))
              ] in
            rw q (
              record {
                blocks = set_last-AreBlocks inv.blocks pool.cur b e p low high;
                cur_lt = omega (arith, inv.cur_lt, length-set_last pool.blocks pool.cur p);
                span_ge = inv.span_ge;
              },
              Owned-set_last inv.blocks pool.cur b e p low high a n o below,
            )
      ])
