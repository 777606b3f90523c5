-- ===== src/Config/Lossless.antt =====
-- `config_load2` of src/config.c on whole texts of Config/Text.antt.
use libhelp.Base.{
  ℕ, ◌+◌, ◌≡◌, refl, ap, ◌∙◌, false, Option, some, List, [], ◌∷◌, ◌++◌, append_assoc, arith, Bytes,
  ◌==◌, length, All,
}
use libhelp.Config.Buffers.{free_conf-SameEntries, with_buffers-some}
use libhelp.Config.Insert.{insert, stored}
use libhelp.Config.Judy.{Judy, IsMap, Memory, IsPlentiful}
use libhelp.Config.Load.{config_load2, no_error, free_conf}
use libhelp.Config.Puts.{insert-Sets}
use libhelp.Config.RoundTrip.{
  at, parse_advance, parse-IsKey, parse-IsQuoted, parse-IsInside, parse-comment,
}
use libhelp.Config.Switch.{achar, step_in, parse, start, free_src}
use libhelp.Config.Text.{
  Item, quoted, bare, comment, blank, print, print_all, give, give_all, IsKey, IsQuoted, IsBare,
  IsItem,
}
use libhelp.Config.Types.{
  space_s, comment_s, param_key_sp_s, param_value_s, param_qt_value_s, param_value_skip_s, Config,
  ok,
}

-- What the lines do to the array; the reported line and the copy of the text stay.
pub record Gives {j : Judy} {m : Memory} (f : Bytes → Option (Option Bytes) → Option (Option Bytes))
    (cfg cfg' : Config j m) : Type 0 where
  pub words : (i : Bytes) → j.get cfg'.entries i ≡ f i (j.get cfg.entries i)
  pub line_error : cfg'.line_error ≡ cfg.line_error
  pub conf : cfg'.conf ≡ cfg.conf

module _ {j : Judy} {m : Memory} (map : IsMap j) (room : IsPlentiful j m) (fuel : ℕ) where
  -- The parser takes a line, and is at the start of the next one.
  record Takes (x : Item) (rest : Bytes) (cfg : Config j m) (n : ℕ) (key value : Bytes)
      : Type 0 where
    cfg' : Config j m
    key' : Bytes
    value' : Bytes
    runs :
        parse fuel (print x ++ rest) cfg (at space_s n key value)
        ≡ parse fuel rest cfg' (at space_s (n + 1) key' value')
    gives : Gives (give x) cfg cfg'

  close_quote :
      (rest : Bytes) (cfg cfg' : Config j m) (n : ℕ) (k v : Bytes)
      → insert cfg k (some v) ≡ stored cfg'
      → parse fuel (b'"' ∷ b';' ∷ b'\n' ∷ rest) cfg (at param_qt_value_s n k v)
        ≡ parse fuel rest cfg' (at space_s (n + 1) k v)
  close_quote rest cfg cfg' n k v e =
      parse_advance fuel b'"' (b';' ∷ b'\n' ∷ rest) cfg cfg' (at param_qt_value_s n k v)
        (at param_value_skip_s n k v) (λ ahead. unfold step_in in rw e)
      ∙ parse_advance fuel b';' (b'\n' ∷ rest) cfg' cfg' (at param_value_skip_s n k v)
          (at space_s n k v) (λ ahead. unfold step_in in refl)
      ∙ parse_advance fuel b'\n' rest cfg' cfg' (at space_s n k v) (at space_s (n + 1) k v)
          (λ ahead. unfold step_in achar in refl)

  close_bare :
      (rest : Bytes) (cfg cfg' : Config j m) (n : ℕ) (k v : Bytes)
      → insert cfg k (some v) ≡ stored cfg'
      → parse fuel (b';' ∷ b'\n' ∷ rest) cfg (at param_value_s n k v)
        ≡ parse fuel rest cfg' (at space_s (n + 1) k v)
  close_bare rest cfg cfg' n k v e =
      parse_advance fuel b';' (b'\n' ∷ rest) cfg cfg' (at param_value_s n k v) (at space_s n k v)
        (λ ahead. unfold step_in in rw e)
      ∙ parse_advance fuel b'\n' rest cfg' cfg' (at space_s n k v) (at space_s (n + 1) k v)
          (λ ahead. unfold step_in achar in refl)

  take_quoted :
      (k v rest : Bytes) (cfg : Config j m) (n : ℕ) (key value : Bytes)
      → IsKey k
      → IsQuoted v
      → Takes (quoted k v) rest cfg n key value
  take_quoted k v rest cfg n key value hk hv =
      let (cfg', e, sets) = insert-Sets map room cfg k v in
      record {
        cfg' = cfg';
        key' = k;
        value' = v;
        runs = simp append_assoc (
            parse-IsKey fuel k _ cfg n key value hk
            ∙ parse_advance fuel b'"' _ cfg cfg (at param_key_sp_s n k value)
                (at param_qt_value_s n k []) (λ ahead. unfold step_in in refl)
            ∙ parse-IsQuoted fuel _ cfg n k [] hv
            ∙ close_quote rest cfg cfg' n k v e);
        gives = record { words = sets.words; line_error = sets.line_error; conf = sets.conf };
      }

  take_bare :
      (k v rest : Bytes) (cfg : Config j m) (n : ℕ) (key value : Bytes)
      → IsKey k
      → IsBare v
      → Takes (bare k v) rest cfg n key value
  take_bare k [] rest cfg n key value hk hv = absurd hv
  take_bare k (c ∷ v) rest cfg n key value hk hv =
      let (cfg', e, sets) = insert-Sets map room cfg k (c ∷ v) in
      record {
        cfg' = cfg';
        key' = k;
        value' = c ∷ v;
        runs = simp append_assoc (
            parse-IsKey fuel k _ cfg n key value hk
            ∙ parse_advance fuel c _ cfg cfg (at param_key_sp_s n k value)
                (at param_value_s n k (c ∷ [])) (λ ahead. unfold step_in in ground arith)
            ∙ parse-IsInside fuel v _ cfg n k (c ∷ []) hv.1
            ∙ close_bare rest cfg cfg' n k (c ∷ v) e);
        gives = record { words = sets.words; line_error = sets.line_error; conf = sets.conf };
      }

  take_comment :
      (s rest : Bytes) (cfg : Config j m) (n : ℕ) (key value : Bytes)
      → All (λ c. (c == b'\n') ≡ false) s
      → Takes (comment s) rest cfg n key value
  take_comment s rest cfg n key value h = record {
    cfg' = cfg;
    key' = key;
    value' = value;
    runs =
        parse_advance fuel b'#' _ cfg cfg (at space_s n key value) (at comment_s n key value)
          (λ ahead. unfold step_in achar in refl)
        ∙ simp append_assoc (
            parse-comment fuel s _ cfg n key value h
            ∙ parse_advance fuel b'\n' rest cfg cfg (at comment_s n key value)
                (at space_s (n + 1) key value) (λ ahead. unfold step_in in refl));
    gives = record { words = λ i. refl; line_error = refl; conf = refl };
  }

  take_blank :
      (rest : Bytes) (cfg : Config j m) (n : ℕ) (key value : Bytes)
      → Takes blank rest cfg n key value
  take_blank rest cfg n key value = record {
    cfg' = cfg;
    key' = key;
    value' = value;
    runs =
        parse_advance fuel b'\n' rest cfg cfg (at space_s n key value)
          (at space_s (n + 1) key value) (λ ahead. unfold step_in achar in refl);
    gives = record { words = λ i. refl; line_error = refl; conf = refl };
  }

  take :
      (x : Item) (rest : Bytes) (cfg : Config j m) (n : ℕ) (key value : Bytes)
      → IsItem x
      → Takes x rest cfg n key value
  take (quoted k v) rest cfg n key value h = take_quoted k v rest cfg n key value h.0 h.1
  take (bare k v) rest cfg n key value h = take_bare k v rest cfg n key value h.0 h.1
  take (comment s) rest cfg n key value h = take_comment s rest cfg n key value h
  take blank rest cfg n key value h = take_blank rest cfg n key value

  take-All :
      (xs : List Item) (cfg : Config j m) (n : ℕ) (key value : Bytes)
      → All IsItem xs
      → (cfg' : Config j m) × (parse fuel (print_all xs) cfg (at space_s n key value) ≡ ok cfg')
        × Gives (give_all xs) cfg cfg'
  unfolding parse
  take-All [] cfg n key value h =
      (free_src cfg, refl, record { words = λ i. refl; line_error = refl; conf = refl })
  take-All (x ∷ xs) cfg n key value h =
      let t = take x (print_all xs) cfg n key value h.0 in
      let (cfg', e, g) = take-All xs t.cfg' (n + 1) t.key' t.value' h.1 in
      (
        cfg',
        t.runs ∙ e,
        record {
          words = λ i. g.words i ∙ ap (give_all xs i) (t.gives.words i);
          line_error = g.line_error ∙ t.gives.line_error;
          conf = g.conf ∙ t.gives.conf;
        },
      )

  -- For a text of lines with quoted values, bare values, comments and blanks, and room for everything,
  -- `config_load2` succeeds: `line_error` is 0, `conf` holds the text, each key that the text names has
  -- the value of the last line that names it, and all other keys keep their words.
  pub config_load2-print_all :
      (cfg : Config j m) (xs : List Item)
      → All IsItem xs
      → (cfg' : Config j m) × (config_load2 fuel cfg (print_all xs) ≡ ok cfg')
        × ((i : Bytes) → j.get cfg'.entries i ≡ give_all xs i (j.get cfg.entries i))
        × (cfg'.line_error ≡ 0)
        × ((p : ℕ) × (cfg'.conf ≡ some (p, print_all xs)))
  unfolding config_load2
  config_load2-print_all cfg xs h =
      let text = print_all xs in
      let freed = free_conf-SameEntries (no_error cfg) in
      let (p, b, same, runs) =
        with_buffers-some room (length text + 1) (length text + 1) (free_conf (no_error cfg))
          (λ q c. parse fuel text (record c { conf = some (q, text) }) start) in
      let (cfg', e, g) = take-All xs (record b { conf = some (p, text) }) 1 [] [] h in
      (
        cfg',
        runs ∙ e,
        λ i.
            g.words i
            ∙ ap (λ (a : j.Arr). give_all xs i (j.get a i)) (same.entries ∙ freed.entries),
        g.line_error ∙ same.line_error ∙ freed.line_error,
        (p, g.conf),
      )
