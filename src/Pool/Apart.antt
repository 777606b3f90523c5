-- ===== src/Pool/Apart.antt =====
-- The blocks of a pool of src/pool.c stay apart through an allocation.
use libhelp.Base.{
  ℕ, ◌+◌, ◌≡◌, ◌≢◌, refl, sym, ap, ◌∙◌, inl, inr, some, List, arith, length, get_elem?, eq_of_some,
}
use libhelp.Pool.{Block}
use libhelp.Pool.Grown.{Apart, AreBlocks, Grown, in_place, appended, Grown-block}
use libhelp.Pool.Blocks.{get_elem?-set_last_self, get_elem?-set_last_ne, get_elem?-append_inv}
use native.Mathlib.Decide.{ℕ_discrete}

-- Where a block of the new list stands: it is an old one but for `last`, or the one appended.
pub data Origin (old : List Block) (k : ℕ) (d : Block) : Type 0 where
  old_one :
      (b : Block) → get_elem? old k ≡ some b → d.base ≡ b.base → d.end ≡ b.end → Origin old k d
  new_one :
      k ≡ length old → ((i : ℕ) (b : Block) → get_elem? old i ≡ some b → Apart d b) → Origin old k d

module _ {span : ℕ} {old : List Block} (all : AreBlocks span old) where
  Origin-Apart : (i k : ℕ) (b d : Block) → i ≢ k → Origin old i b → Origin old k d → Apart b d
  Origin-Apart i k b d ne (old_one b' e p q) (old_one d' f p' q') =
      elim (all.apart i k b' d' ne e f) [
        | inl below ↦ inl (omega arith)
        | inr above ↦ inr (omega arith)
      ]
  Origin-Apart i k b d ne (old_one b' e p q) (new_one l far) = elim (far i b' e) [
    | inl below ↦ inr (omega arith)
    | inr above ↦ inl (omega arith)
  ]
  Origin-Apart i k b d ne (new_one l far) (old_one d' f p' q') = elim (far k d' f) [
    | inl below ↦ inl (omega arith)
    | inr above ↦ inr (omega arith)
  ]
  Origin-Apart i k b d ne (new_one l far) (new_one l' far') = absurd (ne (l ∙ sym l'))

module _ {span size at : ℕ} {old new : List Block} (all : AreBlocks span old) where
  pub origin :
      (k : ℕ) (d : Block) → Grown span old size at new → get_elem? new k ≡ some d → Origin old k d
  origin k d (in_place i b e lo hi eq) f = elim (ℕ_discrete i k) [
    | yes same ↦
        let d_is : record b { last = at + size } ≡ d = eq_of_some (
          sym (get_elem?-set_last_self old i (at + size) e)
          ∙ ap (λ bs. get_elem? bs i) (sym eq)
          ∙ ap (get_elem? new) same
          ∙ f) in
        old_one b (ap (get_elem? old) (sym same) ∙ e) (ap (λ (x : Block). x.base) (sym d_is))
          (ap (λ (x : Block). x.end) (sym d_is))
    | no other ↦
        old_one d
          (sym (get_elem?-set_last_ne old i k (at + size) other)
            ∙ ap (λ bs. get_elem? bs k) (sym eq)
            ∙ f)
          refl refl
  ]
  origin k d (appended n h lo l far eq) f =
      elim (get_elem?-append_inv old n k (ap (λ bs. get_elem? bs k) (sym eq) ∙ f)) [
        | inl before ↦ old_one d before refl refl
        | inr last_one ↦ new_one last_one.0 (λ i b e. rw last_one.1 (far i b e))
      ]

  -- One allocation keeps the shape of the blocks, and that they lie apart.
  pub Grown-AreBlocks : Grown span old size at new → AreBlocks span new
  Grown-AreBlocks g = record {
    span_aligned = all.span_aligned;
    block = λ i b e. Grown-block all i b g e;
    apart = λ i k b d ne e f. Origin-Apart all i k b d ne (origin i b g e) (origin k d g f);
  }
