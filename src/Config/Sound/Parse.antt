-- ===== src/Config/Sound/Parse.antt =====
-- The parser of src/config.c keeps its words in the pool, and frees `src` once when it ends.
use libhelp.Base.{
  c_string, ℕ, zero, suc, ◌≡◌, ◌≢◌, sym, ◌∙◌, subst, Bool-cases, inl, inr, Option, none, some,
  Option-elim_eq, [], ◌∷◌, ◌++◌, arith, Bytes, bytes_eq, if-elim, ltb, length, drop, eq_of_some,
}
use libhelp.Config.Insert.{
  c_word, strncmp_equal, Stored, stored, failed, ◌>>=◌, fill_slot, insert, copy_loop,
  config_key_max_size,
}
use libhelp.Config.Judy.{Word, Judy, IsMap, Memory}
use libhelp.Config.Puts.{get-store-ins}
use libhelp.Config.Sound.{Kept, IsBacked, IsSound, IsParsing, Kept-IsSound}
use libhelp.Config.Switch.{achar, free_src, after, goto, step_in, resume, finish, parse}
use libhelp.Config.Types.{
  State, space_s, param_value_s, param_qt_value_s, param_value_skip_s, param_copy_value_s, Config,
  Locals, Round, advance, skip, error, Loaded, ok, err,
}

module _ {j : Judy} {m : Memory} (map : IsMap j) (b : IsBacked m) where
  -- after an insertion, whatever its outcome
  abbrev pub ParsingIn : Stored j m → Type 0
  ParsingIn (stored cfg) = IsParsing b cfg
  ParsingIn (failed cfg) = IsParsing b cfg
  ParsingIn _ = Unit

  -- a word is stored: `NULL`, or a string that stands in the pool
  store-IsParsing :
      (cfg : Config j m) (a : j.Arr) (key : Bytes) (w : Word) (h : m.Heap)
      → j.ins cfg.entries key ≡ some a
      → IsParsing b cfg
      → Kept m b.Good b.Holds b.Buffer cfg.heap h (λ q. Unit)
      → ((value : Bytes) → w ≡ some value → (a : ℕ) × b.Holds h a value)
      → IsParsing b (record cfg { entries = j.store a key w; heap = h })
  store-IsParsing cfg a key w h e s k held = record {
    sound = record {
      good = k.good;
      words = λ i value f.
          let there = get-store-ins map cfg.entries a key i w e in
          elim (Bool-cases (bytes_eq key i)) [
            | inl q ↦
                let here : some w ≡ some (some value) = rw q at (sym there ∙ f) in
                held value (eq_of_some here)
            | inr q ↦
                let old : j.get cfg.entries i ≡ some (some value) = rw q at (sym there ∙ f) in
                let (at, there') = s.sound.words i value old in (at, k.holds at value there')
          ];
      conf = λ p text f. k.buffers p tt (s.sound.conf p text f);
    };
    src = k.buffers cfg.src tt s.src;
    src_ne = s.src_ne;
  }

  fill_slot-Parsing :
      (cfg : Config j m) (a : j.Arr) (key : Bytes) (value : Word)
      → j.ins cfg.entries key ≡ some a
      → IsParsing b cfg
      → ParsingIn (fill_slot (record cfg { entries = a }) key value)
  unfolding fill_slot
  fill_slot-Parsing cfg a key none e s = tt
  fill_slot-Parsing cfg a key (some value) e s =
      let k = b.cpy_kept cfg.heap value s.sound.good in
      elim (Bool-cases (m.cpy cfg.heap value).0) [
        | inl copied ↦ rw copied (
            store-IsParsing cfg a key (some value) (m.cpy cfg.heap value).1 e s k (λ v f.
              subst (λ v. (a : ℕ) × b.Holds (m.cpy cfg.heap value).1 a v) (eq_of_some f)
                (b.cpy_holds cfg.heap value s.sound.good copied)))
        | inr refused ↦
            rw refused
              (store-IsParsing cfg a key none (m.cpy cfg.heap value).1 e s k (λ v f. absurd (cc f)))
      ]

  pub insert-Parsing :
      (cfg : Config j m) (key : Bytes) (value : Word)
      → IsParsing b cfg
      → ParsingIn (insert cfg key value)
  unfolding insert
  insert-Parsing cfg key value s =
      Option-elim_eq ParsingIn (j.ins cfg.entries key) _ _ (λ e. s)
        (λ a e. fill_slot-Parsing cfg a key value e s)

  bind-Parsing :
      (s : Stored j m) (f : Config j m → Stored j m)
      → ParsingIn s
      → ((cfg : Config j m) → IsParsing b cfg → ParsingIn (f cfg))
      → ParsingIn (s >>= f)
  bind-Parsing (stored cfg) f h next = next cfg h
  bind-Parsing (failed cfg) f h next = h
  bind-Parsing _ f h next = tt

  copy_loop-Parsing :
      (fuel : ℕ) (pkey name : Bytes) (cfg : Config j m) (pw : Option (Bytes × Word))
      → IsParsing b cfg
      → ParsingIn (copy_loop fuel pkey name cfg pw)
  unfolding copy_loop
  copy_loop-Parsing zero pkey name cfg pw s = tt
  copy_loop-Parsing (suc fuel) pkey name cfg none s = s
  copy_loop-Parsing (suc fuel) pkey name cfg (some (index, value)) s =
      let key = pkey ++ drop (length name) index in
      if-elim ParsingIn (strncmp_equal name index)
        (if-elim ParsingIn (ltb config_key_max_size (length key)) tt (
          bind-Parsing (insert cfg key (c_word value)) _ (insert-Parsing cfg key (c_word value) s)
            (λ cfg' s'. copy_loop-Parsing fuel pkey name cfg' (j.next cfg'.entries index) s')))
        s

  -- `free(src)`, and what every error does
  pub free_src-IsSound : (cfg : Config j m) → IsParsing b cfg → IsSound b (free_src cfg)
  free_src-IsSound cfg s =
      Kept-IsSound b cfg (m.free cfg.heap cfg.src) (λ q. q ≢ cfg.src) s.sound
        (b.free_kept cfg.heap cfg.src s.sound.good s.src) s.src_ne

  freed :
      (cfg : Config j m) (line : ℕ)
      → IsParsing b cfg
      → IsSound b (record (free_src cfg) { line_error = line })
  freed cfg line s =
      let t = free_src-IsSound cfg s in record { good = t.good; words = t.words; conf = t.conf }

  -- after one round
  abbrev pub GoesOn : Round j m → Type 0
  GoesOn (advance cfg l) = IsParsing b cfg
  GoesOn (skip cfg l) = IsParsing b cfg
  GoesOn (error cfg) = IsSound b cfg
  GoesOn _ = Unit

  after-GoesOn : (w : Stored j m) (l : Locals) → ParsingIn w → GoesOn (after w l)
  after-GoesOn (stored cfg) l s = s
  after-GoesOn (failed cfg) l s = free_src-IsSound cfg s
  after-GoesOn _ l s = tt

  pub step_in-GoesOn :
      (s : State) (fuel : ℕ) (cfg : Config j m) (l : Locals) (c ahead : ℕ)
      → IsParsing b cfg
      → GoesOn (step_in s fuel cfg l c ahead)
  unfolding step_in achar
  step_in-GoesOn param_value_s fuel cfg l c ahead p = ground (
    arith,
    p,
    freed cfg l.line p,
    after-GoesOn (insert cfg l.pkey (some l.pvalue)) (goto space_s l)
        (insert-Parsing cfg l.pkey (some l.pvalue) p),
  )
  step_in-GoesOn param_qt_value_s fuel cfg l c ahead p = ground (
    arith,
    p,
    freed cfg l.line p,
    after-GoesOn (insert cfg l.pkey (some l.pvalue)) (goto param_value_skip_s l)
        (insert-Parsing cfg l.pkey (some l.pvalue) p),
  )
  step_in-GoesOn param_copy_value_s fuel cfg l c ahead p =
      let pw = j.first cfg.entries (c_string l.pvalue) in
      ground (
        arith,
        p,
        freed cfg l.line p,
        after-GoesOn (copy_loop fuel l.pkey l.pvalue cfg pw) (goto space_s l)
            (copy_loop-Parsing fuel l.pkey l.pvalue cfg pw p),
      )
  step_in-GoesOn _ fuel cfg l c ahead p = ground (arith, p, freed cfg l.line p)

  -- after a load, whatever its outcome
  abbrev pub SoundIn : Loaded j m → Type 0
  SoundIn (ok cfg) = IsSound b cfg
  SoundIn (err cfg) = IsSound b cfg
  SoundIn _ = Unit

  resume-SoundIn :
      (r : Round j m) (more beyond : Config j m → Locals → Loaded j m)
      → GoesOn r
      → ((cfg : Config j m) (l : Locals) → IsParsing b cfg → SoundIn (more cfg l))
      → ((cfg : Config j m) (l : Locals) → IsParsing b cfg → SoundIn (beyond cfg l))
      → SoundIn (resume r more beyond)
  resume-SoundIn (advance cfg l) more beyond h f g = f cfg l h
  resume-SoundIn (skip cfg l) more beyond h f g = g cfg l h
  resume-SoundIn (error cfg) more beyond h f g = h
  resume-SoundIn Round.undefined more beyond h f g = tt
  resume-SoundIn Round.out_of_fuel more beyond h f g = tt

  pub parse-SoundIn :
      (fuel : ℕ) (src : Bytes) (cfg : Config j m) (l : Locals)
      → IsParsing b cfg
      → SoundIn (parse fuel src cfg l)
  unfolding parse
  parse-SoundIn fuel [] cfg l s = free_src-IsSound cfg s
  parse-SoundIn fuel (c ∷ []) cfg l s =
      resume-SoundIn (step_in l.state fuel cfg l c 0) finish finish
        (step_in-GoesOn l.state fuel cfg l c 0 s) (λ cfg' l'. free_src-IsSound cfg')
        (λ cfg' l'. free_src-IsSound cfg')
  parse-SoundIn fuel (c ∷ d ∷ rest) cfg l s =
      resume-SoundIn (step_in l.state fuel cfg l c d) _ _ (step_in-GoesOn l.state fuel cfg l c d s)
        (λ cfg' l'. parse-SoundIn fuel (d ∷ rest) cfg' l')
        (λ cfg' l'. parse-SoundIn fuel rest cfg' l')
