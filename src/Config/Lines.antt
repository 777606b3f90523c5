-- ===== src/Config/Lines.antt =====
-- Where a load of src/config.c stops, and the line that it reports.
use libhelp.Base.{
  c_string, ℕ, zero, suc, ◌+◌, ◌≡◌, refl, ◌⊎◌, inl, inr, Bool-cases, false, Option, none, some, [],
  ◌∷◌, ◌++◌, arith, Bytes, count, if-elim, ◌==◌, ◌&&◌, drop, length, ltb,
}
use libhelp.Config.Insert.{
  c_word, strncmp_equal, Stored, stored, failed, ◌>>=◌, insert, fill_slot, copy_loop,
  config_key_max_size,
}
use libhelp.Config.Judy.{Word, Judy, Memory, IsPlentiful}
use libhelp.Config.Switch.{achar, after, goto, value_byte, step_in, parse}
use libhelp.Config.Types.{
  State, space_s, param_value_s, param_qt_value_s, param_value_skip_s, param_copy_value_s, Config,
  Locals, Round, advance, skip, error, ok, err,
}

-- `p[1]`, or the NUL behind the text
abbrev pub ahead_of : Bytes → ℕ
ahead_of [] = 0
ahead_of (c ∷ cs) = c

module _ {j : Judy} {m : Memory} where
  -- The loop, at a configuration and locals, accepts the text up to a byte. With that byte behind it, and
  -- whatever follows, it fails, and reports the line in which the byte stands.
  pub record Refused (fuel : ℕ) (src : Bytes) (cfg : Config j m) (l : Locals) (cfg' : Config j m)
      : Type 0 where
    pub before : Bytes
    pub byte : ℕ
    pub behind : Bytes
    pub splits : src ≡ before ++ (byte ∷ behind)
    pub line_is : cfg'.line_error ≡ l.line + count b'\n' before
    pub accepted : (d : Config j m) × (parse fuel before cfg l ≡ ok d)
    pub stops : (more : Bytes) → parse fuel (before ++ (byte ∷ more)) cfg l ≡ err cfg'

  pub parse-on :
      (fuel c : ℕ) (t : Bytes) (cfg b : Config j m) (l k : Locals)
      → step_in l.state fuel cfg l c (ahead_of t) ≡ advance b k
      → parse fuel (c ∷ t) cfg l ≡ parse fuel t b k
  unfolding parse
  parse-on fuel c [] cfg b l k e = rw e refl
  parse-on fuel c (d ∷ t) cfg b l k e = rw e refl

  pub parse-error :
      (fuel c : ℕ) (t : Bytes) (cfg b : Config j m) (l : Locals)
      → step_in l.state fuel cfg l c (ahead_of t) ≡ error b
      → parse fuel (c ∷ t) cfg l ≡ err b
  unfolding parse
  parse-error fuel c [] cfg b l e = rw e refl
  parse-error fuel c (d ∷ t) cfg b l e = rw e refl

  -- a round that `p[1]` makes longer
  record Escapes (s : State) (fuel : ℕ) (cfg : Config j m) (l : Locals) (c a : ℕ) : Type 0 where
    long : Locals
    short : Locals
    escaped : step_in s fuel cfg l c a ≡ skip cfg long
    alone : step_in s fuel cfg l c 0 ≡ advance cfg short

  -- All other rounds are the same for every `p[1]`.
  step_in-ahead :
      (s : State) (fuel : ℕ) (cfg : Config j m) (l : Locals) (c a : ℕ)
      → Escapes s fuel cfg l c a ⊎ (step_in s fuel cfg l c a ≡ step_in s fuel cfg l c 0)
  unfolding step_in
  step_in-ahead param_qt_value_s fuel cfg l c a = elim (Bool-cases (c == b'\\' && a == b'"')) [
    | inl h ↦ inl (record {
      long = value_byte a (value_byte c l);
      short = value_byte c l;
      escaped = ground (arith, h);
      alone = ground (arith, h);
    })
    | inr h ↦ inr (ground (arith, h))
  ]
  step_in-ahead _ fuel cfg l c a = inr refl

  -- an error is one for every `p[1]`
  pub error-ahead :
      (s : State) (fuel : ℕ) (cfg b : Config j m) (l : Locals) (c a x : ℕ)
      → step_in s fuel cfg l c a ≡ error b
      → step_in s fuel cfg l c x ≡ error b
  error-ahead s fuel cfg b l c a x e = elim (step_in-ahead s fuel cfg l c a) [
    | inl h ↦ let same = h.escaped in cc
    | inr h ↦ elim (step_in-ahead s fuel cfg l c x) [
      | inl k ↦ let same = k.alone in cc
      | inr k ↦ cc
    ]
  ]

  -- a byte is taken alone as it is in front of another
  pub advance-ahead :
      (s : State) (fuel : ℕ) (cfg b : Config j m) (l k : Locals) (c a : ℕ)
      → step_in s fuel cfg l c a ≡ advance b k
      → step_in s fuel cfg l c 0 ≡ advance b k
  advance-ahead s fuel cfg b l k c a e = elim (step_in-ahead s fuel cfg l c a) [
    | inl h ↦ let same = h.escaped in cc
    | inr h ↦ cc
  ]

module _ {j : Judy} {m : Memory} (room : IsPlentiful j m) where
  abbrev NeverFails : Stored j m → Type 0
  NeverFails (failed cfg) = ⊥
  NeverFails _ = Unit

  insert-NeverFails :
      (cfg : Config j m) (key : Bytes) (value : Word) → NeverFails (insert cfg key value)
  unfolding insert fill_slot
  insert-NeverFails cfg key none = let (a, e) = room.ins_some cfg.entries key in rw (e, insert) tt
  insert-NeverFails cfg key (some v) =
      let (a, e) = room.ins_some cfg.entries key in
      rw (e, insert) (rw (room.cpy_true cfg.heap v, fill_slot) tt)

  bind-NeverFails :
      (s : Stored j m) (f : Config j m → Stored j m)
      → NeverFails s
      → ((cfg : Config j m) → NeverFails (f cfg))
      → NeverFails (s >>= f)
  bind-NeverFails (stored cfg) f h next = next cfg
  bind-NeverFails (failed cfg) f h next = h
  bind-NeverFails _ f h next = tt

  copy_loop-NeverFails :
      (fuel : ℕ) (pkey name : Bytes) (cfg : Config j m) (pw : Option (Bytes × Word))
      → NeverFails (copy_loop fuel pkey name cfg pw)
  unfolding copy_loop
  copy_loop-NeverFails zero pkey name cfg pw = tt
  copy_loop-NeverFails (suc fuel) pkey name cfg none = tt
  copy_loop-NeverFails (suc fuel) pkey name cfg (some (index, value)) =
      let key = pkey ++ drop (length name) index in
      if-elim NeverFails (strncmp_equal name index)
        (if-elim NeverFails (ltb config_key_max_size (length key)) tt (
          bind-NeverFails (insert cfg key (c_word value)) _
            (insert-NeverFails cfg key (c_word value))
            (λ b. copy_loop-NeverFails fuel pkey name b (j.next b.entries index))))
        tt

  -- what one round does to the line count, and the line of its failure
  abbrev pub Counts : Locals → ℕ → ℕ → Round j m → Type 0
  Counts l c ahead (advance cfg' l') = l'.line ≡ l.line + count b'\n' (c ∷ [])
  Counts l c ahead (skip cfg' l') = l'.line ≡ l.line + count b'\n' (c ∷ ahead ∷ [])
  Counts l c ahead (error cfg') = cfg'.line_error ≡ l.line
  Counts l c ahead _ = Unit

  after-Counts :
      (s : State) (l : Locals) (c ahead : ℕ) (w : Stored j m)
      → (c == b'\n') ≡ false
      → NeverFails w
      → Counts l c ahead (after w (goto s l))
  after-Counts s l c ahead (stored _) h k = ground arith
  after-Counts s l c ahead (failed _) h k = absurd k
  after-Counts s l c ahead _ h k = tt

  pub step_in-Counts :
      (s : State) (fuel : ℕ) (cfg : Config j m) (l : Locals) (c ahead : ℕ)
      → Counts l c ahead (step_in s fuel cfg l c ahead)
  unfolding step_in achar
  step_in-Counts param_value_s fuel cfg l c ahead = ground (
    arith,
    after-Counts space_s l c ahead (insert cfg l.pkey (some l.pvalue)),
    insert-NeverFails cfg l.pkey (some l.pvalue),
  )
  step_in-Counts param_qt_value_s fuel cfg l c ahead = ground (
    arith,
    after-Counts param_value_skip_s l c ahead (insert cfg l.pkey (some l.pvalue)),
    insert-NeverFails cfg l.pkey (some l.pvalue),
  )
  step_in-Counts param_copy_value_s fuel cfg l c ahead =
      let pw = j.first cfg.entries (c_string l.pvalue) in
      ground (
        arith,
        after-Counts space_s l c ahead (copy_loop fuel l.pkey l.pvalue cfg pw),
        copy_loop-NeverFails fuel l.pkey l.pvalue cfg pw,
      )
  step_in-Counts _ fuel cfg l c ahead = ground arith
