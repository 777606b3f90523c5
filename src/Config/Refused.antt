-- ===== src/Config/Refused.antt =====
-- The line that a failed `config_load2` of src/config.c reports.
use libhelp.Base.{
  ℕ, ◌+◌, ◌≡◌, refl, ap, sym, ◌∙◌, [], ◌∷◌, ◌++◌, arith, some, length, Bytes, count, count-append,
}
use libhelp.Config.Buffers.{free_conf-SameEntries, with_buffers-some}
use libhelp.Config.Judy.{Judy, Memory, IsPlentiful}
use libhelp.Config.Lines.{
  ahead_of, Refused, parse-on, parse-error, error-ahead, advance-ahead, step_in-Counts,
}
use libhelp.Config.Load.{no_error, free_conf, config_load2}
use libhelp.Config.Switch.{start, step_in, resume, finish, parse}
use libhelp.Config.Types.{Config, Locals, Round, advance, skip, error, err}

ahead_of-splits :
    (d byte : ℕ) (rest before behind more : Bytes)
    → d ∷ rest ≡ before ++ (byte ∷ behind)
    → ahead_of (before ++ (byte ∷ more)) ≡ d
ahead_of-splits d byte rest [] behind more e = ap ahead_of (sym e)
ahead_of-splits d byte rest (x ∷ xs) behind more e = ap ahead_of (sym e)

module _ {j : Judy} {m : Memory} (room : IsPlentiful j m) (fuel : ℕ) where
  Refused-here :
      (c : ℕ) (t : Bytes) (cfg b : Config j m) (l : Locals)
      → step_in l.state fuel cfg l c (ahead_of t) ≡ error b
      → Refused fuel (c ∷ t) cfg l b
  unfolding parse
  Refused-here c t cfg b l e = record {
    before = [];
    byte = c;
    behind = t;
    splits = refl;
    line_is =
        let line = step_in-Counts room l.state fuel cfg l c (ahead_of t) in
        let same : b.line_error ≡ l.line = rw e at line in omega (arith, same);
    accepted = (_, refl);
    stops = λ more.
        parse-error fuel c more cfg b l
          (error-ahead l.state fuel cfg b l c (ahead_of t) (ahead_of more) e);
  }

  Refused-later :
      (c d : ℕ) (rest : Bytes) (cfg b : Config j m) (l k : Locals) {cfg' : Config j m}
      → step_in l.state fuel cfg l c d ≡ advance b k
      → Refused fuel (d ∷ rest) b k cfg'
      → Refused fuel (c ∷ d ∷ rest) cfg l cfg'
  Refused-later c d rest cfg b l k e r = record {
    before = c ∷ r.before;
    byte = r.byte;
    behind = r.behind;
    splits = ap (◌∷◌ c) r.splits;
    line_is =
        let line = step_in-Counts room l.state fuel cfg l c d in
        let more : k.line ≡ l.line + count b'\n' (c ∷ []) = rw e at line in
        omega (arith, more, r.line_is, count-append b'\n' (c ∷ []) r.before);
    accepted = (r.accepted.0, go r.before r.splits ∙ r.accepted.1);
    stops = λ more.
        parse-on fuel c (r.before ++ (r.byte ∷ more)) cfg b l k (
          ap (step_in l.state fuel cfg l c)
            (ahead_of-splits d r.byte rest r.before r.behind more r.splits)
          ∙ e)
        ∙ r.stops more;
  }
    where
      go :
          (t : Bytes)
          → d ∷ rest ≡ t ++ (r.byte ∷ r.behind)
          → parse fuel (c ∷ t) cfg l ≡ parse fuel t b k
      go [] s = parse-on fuel c [] cfg b l k (advance-ahead l.state fuel cfg b l k c d e)
      go (x ∷ xs) s =
          parse-on fuel c (x ∷ xs) cfg b l k
            (ap (λ y. step_in l.state fuel cfg l c (ahead_of y)) (sym s) ∙ e)

  Refused-beyond :
      (c d : ℕ) (rest : Bytes) (cfg b : Config j m) (l k : Locals) {cfg' : Config j m}
      → step_in l.state fuel cfg l c d ≡ skip b k
      → Refused fuel rest b k cfg'
      → Refused fuel (c ∷ d ∷ rest) cfg l cfg'
  unfolding parse
  Refused-beyond c d rest cfg b l k e r = record {
    before = c ∷ d ∷ r.before;
    byte = r.byte;
    behind = r.behind;
    splits = ap (λ t. c ∷ d ∷ t) r.splits;
    line_is =
        let line = step_in-Counts room l.state fuel cfg l c d in
        let more : k.line ≡ l.line + count b'\n' (c ∷ d ∷ []) = rw e at line in
        omega (arith, more, r.line_is, count-append b'\n' (c ∷ d ∷ []) r.before);
    accepted = (r.accepted.0, rw e r.accepted.1);
    stops = λ more. rw e (r.stops more);
  }

  -- the last round
  last-Refused :
      (c : ℕ) (cfg : Config j m) (l : Locals) {cfg' : Config j m} (r : Round j m)
      → step_in l.state fuel cfg l c 0 ≡ r
      → resume r finish finish ≡ err cfg'
      → Refused fuel (c ∷ []) cfg l cfg'
  last-Refused c cfg l (advance b k) s e = cc
  last-Refused c cfg l (skip b k) s e = cc
  last-Refused c cfg l {cfg'} (error b) s e = Refused-here c [] cfg cfg' l (s ∙ cc)
  last-Refused c cfg l Round.undefined s e = cc
  last-Refused c cfg l Round.out_of_fuel s e = cc

  -- a round with a byte ahead
  round-Refused :
      (c d : ℕ) (rest : Bytes) (cfg : Config j m) (l : Locals) {cfg' : Config j m} (r : Round j m)
      → step_in l.state fuel cfg l c d ≡ r
      → resume r (λ b k. parse fuel (d ∷ rest) b k) (λ b k. parse fuel rest b k) ≡ err cfg'
      → ((b : Config j m) (k : Locals)
          → parse fuel (d ∷ rest) b k ≡ err cfg'
          → Refused fuel (d ∷ rest) b k cfg')
      → ((b : Config j m) (k : Locals)
          → parse fuel rest b k ≡ err cfg'
          → Refused fuel rest b k cfg')
      → Refused fuel (c ∷ d ∷ rest) cfg l cfg'
  round-Refused c d rest cfg l (advance b k) s e f g = Refused-later c d rest cfg b l k s (f b k e)
  round-Refused c d rest cfg l (skip b k) s e f g = Refused-beyond c d rest cfg b l k s (g b k e)
  round-Refused c d rest cfg l {cfg'} (error b) s e f g =
      Refused-here c (d ∷ rest) cfg cfg' l (s ∙ cc)
  round-Refused c d rest cfg l Round.undefined s e f g = cc
  round-Refused c d rest cfg l Round.out_of_fuel s e f g = cc

  parse-Refused :
      (src : Bytes) (cfg : Config j m) (l : Locals) {cfg' : Config j m}
      → parse fuel src cfg l ≡ err cfg'
      → Refused fuel src cfg l cfg'
  unfolding parse
  parse-Refused [] cfg l e = cc
  parse-Refused (c ∷ []) cfg l e = last-Refused c cfg l (step_in l.state fuel cfg l c 0) refl e
  parse-Refused (c ∷ d ∷ rest) cfg l e =
      round-Refused c d rest cfg l (step_in l.state fuel cfg l c d) refl e
        (λ b k h. parse-Refused (d ∷ rest) b k h) (λ b k h. parse-Refused rest b k h)

  -- With room for everything, `config_load2` is the loop from line 1 on, and when it fails, there is a
  -- byte of `str` that the loop refuses: it accepts what stands before that byte, it fails with the
  -- byte behind that, whatever follows, and `line_error` is the line of the byte, one more than the
  -- newlines before it.
  pub config_load2-Refused :
      (cfg : Config j m) (str : Bytes) {cfg' : Config j m}
      → config_load2 fuel cfg str ≡ err cfg'
      → (b : Config j m) × (b.entries ≡ cfg.entries)
        × (config_load2 fuel cfg str ≡ parse fuel str b start)
        × Refused fuel str b start cfg'
  unfolding config_load2
  config_load2-Refused cfg str e =
      let freed = free_conf-SameEntries (no_error cfg) in
      let (p, b, same, runs) =
        with_buffers-some room (length str + 1) (length str + 1) (free_conf (no_error cfg))
          (λ q c. parse fuel str (record c { conf = some (q, str) }) start) in
      let b' : Config j m = record b { conf = some (p, str) } in
      (b', same.entries ∙ freed.entries, runs, parse-Refused str b' start (sym runs ∙ e))
