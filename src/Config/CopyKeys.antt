-- ===== src/Config/CopyKeys.antt =====
-- The copy of keys (`key @prefix;`) of src/config.c: the loop ends, and what it leaves in the array.
use libhelp.Base.{
  NulFree, c_string, [], ◌∷◌, ◌==◌, ◌&&◌, starts_with, ℕ, suc, zero, ◌≤◌, ◌<◌, ◌≡◌, inl, inr, refl,
  sym, ap, ◌∙◌, subst, arith, Bool, true, false, not, Bool-cases, Option, none, some, List, ◌++◌,
  Bytes, bytes_eq, bytes_eq_iff, ltb, le→ltb, drop, length,
}
use libhelp.Config.Insert.{config_key_max_size, stored, strncmp_equal, insert, copy_loop}
use libhelp.Config.Judy.{Word, Judy, IsMap, Memory, IsPlentiful}
use libhelp.Config.Order.{
  bytes_lt, bytes_lt_irrefl, bytes_lt_antisym, bytes_lt-append, starts_with_between,
  starts_with-append, starts_with_split, drop-length, IsLowest, Gives, IsOrdered,
}
use libhelp.Config.Puts.{Sets, insert-Sets}
use libhelp.Config.Types.{Config}
use libhelp.Config.Walk.{Has, IsUpward, behind-IsUpward, left, left-lt}

strncmp_equal-NulFree :
    (name index : Bytes) → NulFree name → strncmp_equal name index ≡ starts_with name index
unfolding strncmp_equal starts_with
strncmp_equal-NulFree [] index h = refl
strncmp_equal-NulFree (c ∷ name) [] h = h.0
strncmp_equal-NulFree (c ∷ name) (d ∷ index) h =
    ap (λ b. c == d && b) (strncmp_equal-NulFree name index h.1)

append_cancel : (p s t : Bytes) → p ++ s ≡ p ++ t → s ≡ t
append_cancel p s t e = sym (drop-length p s) ∙ ap (drop (length p)) e ∙ drop-length p t

-- Copies from the prefix `name` to the prefix `pkey` that the loop can make: no copy begins with `name`,
-- each has room in the array `key`, `name` has no NUL, no word is `NULL`, and `ks` has the rests of the
-- keys.
pub record IsCopyable (j : Judy) (orig : j.Arr) (pkey name : Bytes) (ks : List Bytes) : Type 0 where
  pub no_nul : NulFree name
  pub apart : (s : Bytes) → starts_with name (pkey ++ s) ≡ false
  pub short :
      (s : Bytes) (w : Word)
      → j.get orig (name ++ s) ≡ some w
      → length (pkey ++ s) ≤ config_key_max_size
  pub valued : (s : Bytes) (w : Word) → j.get orig (name ++ s) ≡ some w → (v : Bytes) × (w ≡ some v)
  pub known : (s : Bytes) (w : Word) → j.get orig (name ++ s) ≡ some w → Has s ks

-- An array in which the keys that pass a test are copied, and no other key is changed.
pub record Copied (j : Judy) (orig : j.Arr) (pkey name : Bytes) (passes : Bytes → Bool) (a : j.Arr)
    : Type 0 where
  pub copied :
      (s v : Bytes)
      → j.get orig (name ++ s) ≡ some (some v)
      → passes (name ++ s) ≡ true
      → j.get a (pkey ++ s) ≡ some (some (c_string v))
  pub kept :
      (k : Bytes)
      → ((s : Bytes) → k ≡ pkey ++ s → j.get orig (name ++ s) ≡ none)
      → j.get a k ≡ j.get orig k

-- What a copy leaves, from an array: each key with the prefix is copied, and no other key is changed.
pub record Copies {j : Judy} {m : Memory} (orig : j.Arr) (pkey name : Bytes) (cfg cfg' : Config j m)
    : Type 0 where
  pub copied :
      (s v : Bytes)
      → j.get orig (name ++ s) ≡ some (some v)
      → j.get cfg'.entries (pkey ++ s) ≡ some (some (c_string v))
  pub kept :
      (k : Bytes)
      → ((s : Bytes) → k ≡ pkey ++ s → j.get orig (name ++ s) ≡ none)
      → j.get cfg'.entries k ≡ j.get orig k
  pub line_error : cfg'.line_error ≡ cfg.line_error
  pub conf : cfg'.conf ≡ cfg.conf

module _ {j : Judy} where
  module _ {orig : j.Arr} {pkey name : Bytes} {ks : List Bytes}
      (can : IsCopyable j orig pkey name ks) where
    -- the keys that are copied keep their words
    get-source :
        {passes : Bytes → Bool} {a : j.Arr} (s : Bytes)
        → Copied j orig pkey name passes a
        → j.get a (name ++ s) ≡ j.get orig (name ++ s)
    get-source s c = c.kept (name ++ s) (λ t e.
        let found = starts_with-append name s in
        let no = can.apart t in
        let same : starts_with name (name ++ s) ≡ starts_with name (pkey ++ t) =
          ap (starts_with name) e in
        absurd cc)

    module _ {m : Memory} where
      -- one more key
      Copied-step :
          {pending : Bytes → Bool} {cfg cfg' : Config j m} (s v : Bytes)
          → Copied j orig pkey name (λ i. not (pending i)) cfg.entries
          → IsLowest j cfg.entries pending (name ++ s) (some v)
          → Sets cfg (pkey ++ s) (c_string v) cfg'
          → Copied j orig pkey name (λ i. not (bytes_lt (name ++ s) i)) cfg'.entries
      Copied-step {pending} {cfg} {cfg'} s v c low put = record {
        copied = λ t u e h.
            let word = put.words (pkey ++ t) in
            elim (Bool-cases (bytes_eq (pkey ++ s) (pkey ++ t))) [
              | inl q ↦
                  let same = append_cancel pkey s t ((bytes_eq_iff (pkey ++ s) (pkey ++ t)).0 q) in
                  let here : j.get orig (name ++ t) ≡ some (some v) =
                    ap (λ r. j.get orig (name ++ r)) (sym same) ∙ sym (get-source s c) ∙ low.held in
                  let both : some (some v) ≡ some (some u) = sym here ∙ e in
                  let same_string : v ≡ u = cc in
                  word ∙ rw q (ap (λ x. some (some (c_string x))) same_string)
              | inr q ↦
                  let behind : bytes_lt (name ++ s) (name ++ t) ≡ false = ground (arith, h) in
                  let gone : pending (name ++ t) ≡ false = elim (Bool-cases (pending (name ++ t))) [
                    | inr p ↦ p
                    | inl p ↦
                        let there : j.get cfg.entries (name ++ t) ≡ some (some u) =
                          get-source t c ∙ e in
                        let at_s : name ++ s ≡ name ++ t =
                          bytes_lt_antisym (name ++ s) (name ++ t) behind
                            (low.lowest (name ++ t) (some u) there p) in
                        let same : s ≡ t = append_cancel name s t at_s in
                        let found =
                          (bytes_eq_iff (pkey ++ s) (pkey ++ t)).1 (ap (◌++◌ pkey) same) in
                        absurd cc
                  ] in
                  word ∙ rw q (c.copied t u e (rw gone refl))
            ];
        kept = λ k h.
            let word = put.words k in
            elim (Bool-cases (bytes_eq (pkey ++ s) k)) [
              | inl q ↦
                  let none_there = h s (sym ((bytes_eq_iff (pkey ++ s) k).0 q)) in
                  let there = sym (get-source s c) ∙ low.held in absurd cc
              | inr q ↦ word ∙ rw q (c.kept k h)
            ];
      }

      ends :
          (pending : Bytes → Bool) (cfg : Config j m)
          → Copied j orig pkey name (λ i. not (pending i)) cfg.entries
          → ((s : Bytes) (w : Word)
              → j.get cfg.entries (name ++ s) ≡ some w
              → pending (name ++ s) ≡ false)
          → Copies orig pkey name cfg cfg
      ends pending cfg c h = record {
        copied =
            λ s v e. let gone = h s (some v) (get-source s c ∙ e) in c.copied s v e (rw gone refl);
        kept = c.kept;
        line_error = refl;
        conf = refl;
      }

      -- a key without the prefix is behind all those with it
      ends_at :
          (pending : Bytes → Bool) (cfg : Config j m) (index : Bytes) (w : Word)
          → IsUpward name pending
          → Copied j orig pkey name (λ i. not (pending i)) cfg.entries
          → IsLowest j cfg.entries pending index w
          → starts_with name index ≡ false
          → Copies orig pkey name cfg cfg
      ends_at pending cfg index w up c low other = ends pending cfg c (λ s w' there.
          elim (Bool-cases (pending (name ++ s))) [
            | inr p ↦ p
            | inl p ↦
                let with_prefix =
                  starts_with_between name s index (up.above index low.passed)
                    (low.lowest (name ++ s) w' there p) in
                absurd cc
          ])

      -- one round of the loop
      copy_round :
          (fuel : ℕ) (cfg cfg1 : Config j m) (s v : Bytes)
          → length (pkey ++ s) ≤ config_key_max_size
          → insert cfg (pkey ++ s) (some (c_string v)) ≡ stored cfg1
          → copy_loop (suc fuel) pkey name cfg (some (name ++ s, some v))
            ≡ copy_loop fuel pkey name cfg1 (j.next cfg1.entries (name ++ s))
      unfolding copy_loop
      copy_round fuel cfg cfg1 s v short put =
          let fits : ltb config_key_max_size (length (pkey ++ s)) ≡ false =
            le→ltb config_key_max_size (length (pkey ++ s)) short in
          let found : strncmp_equal name (name ++ s) ≡ true =
            strncmp_equal-NulFree name (name ++ s) can.no_nul ∙ starts_with-append name s in
          rw (found, drop-length name s, fits, put) refl

      pub copy_loop-Copies :
          (map : IsMap j) (ordered : IsOrdered j) (room : IsPlentiful j m) (fuel : ℕ)
          (pending : Bytes → Bool) (cfg : Config j m) (pw : Option (Bytes × Word))
          → IsUpward name pending
          → Copied j orig pkey name (λ i. not (pending i)) cfg.entries
          → Gives j cfg.entries pending pw
          → left name pending ks < fuel
          → (cfg' : Config j m) × (copy_loop fuel pkey name cfg pw ≡ stored cfg')
            × Copies orig pkey name cfg cfg'
      unfolding copy_loop
      copy_loop-Copies map ordered room zero pending cfg pw up c g enough =
          absurd (omega (arith, enough))
      copy_loop-Copies map ordered room (suc fuel) pending cfg none up c g enough =
          (cfg, refl, ends pending cfg c (λ s w there. g (name ++ s) w there))
      copy_loop-Copies map ordered room (suc fuel) pending cfg (some (index, w)) up c low enough =
          elim (Bool-cases (starts_with name index)) [
            | inr other ↦ (
              cfg,
              rw (strncmp_equal-NulFree name index can.no_nul ∙ other) refl,
              ends_at pending cfg index w up c low other,
            )
            | inl found ↦
                let s = drop (length name) index in
                let is_index : index ≡ name ++ s = starts_with_split name index found in
                let low' : IsLowest j cfg.entries pending (name ++ s) w =
                  subst (λ i. IsLowest j cfg.entries pending i w) is_index low in
                let (v, is_word) = can.valued s w (sym (get-source s c) ∙ low'.held) in
                let low'' : IsLowest j cfg.entries pending (name ++ s) (some v) =
                  subst (λ x. IsLowest j cfg.entries pending (name ++ s) x) is_word low' in
                let there : j.get orig (name ++ s) ≡ some (some v) =
                  sym (get-source s c) ∙ low''.held in
                let (cfg1, put, sets) = insert-Sets map room cfg (pkey ++ s) (c_string v) in
                let fewer =
                  left-lt name (bytes_lt (name ++ s)) pending s ks
                    (λ i h. up.upward (name ++ s) i low''.passed h) (can.known s (some v) there)
                    low''.passed (bytes_lt_irrefl (name ++ s)) in
                let (cfg', run, copies) =
                  copy_loop-Copies map ordered room fuel (bytes_lt (name ++ s)) cfg1
                    (j.next cfg1.entries (name ++ s))
                    (behind-IsUpward name (name ++ s) (bytes_lt-append name s))
                    (Copied-step s v c low'' sets) (ordered.next cfg1.entries (name ++ s))
                    (omega (arith, enough, fewer)) in
                (
                  cfg',
                  ap (λ r. copy_loop (suc fuel) pkey name cfg (some r))
                        (λ i. (is_index i, is_word i))
                      ∙ copy_round fuel cfg cfg1 s v (can.short s (some v) there) put
                      ∙ run,
                  record {
                    copied = copies.copied;
                    kept = copies.kept;
                    line_error = copies.line_error ∙ sets.line_error;
                    conf = copies.conf ∙ sets.conf;
                  },
                )
          ]
