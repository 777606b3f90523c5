-- ===== src/Config/Switch.antt =====
-- The switch of `config_load2` in src/config.c, a function for each state, and its loop.
use libhelp.Base.{
  c_string, ℕ, ◌+◌, Bool, ◌||◌, ◌&&◌, some, [], ◌∷◌, ◌++◌, Bytes, ltb, ◌==◌, within, if◌then◌else◌,
  length,
}
use libhelp.Config.Insert.{config_key_max_size, Stored, stored, failed, insert, copy_loop}
use libhelp.Config.Judy.{Judy, Memory}
use libhelp.Config.Types.{
  State, space_s, comment_s, param_key_s, param_key_sp_s, param_value_s, param_qt_value_s,
  param_value_skip_s, param_copy_value_s, Config, Locals, Round, advance, skip, error, Loaded, ok,
  err,
}

-- the table `achar`: the bytes of a key
unfoldable pub achar : ℕ → Bool
achar c = within b'a' b'z' c || within b'A' b'Z' c || within b'0' b'9' c || c == b'_' || c == b'.'

-- the first locals
abbrev pub start : Locals
start = record { state = space_s; line = 1; pkey = []; pvalue = [] }

abbrev pub goto : State → Locals → Locals
goto s l = record l { state = s }

abbrev pub key_byte : ℕ → Locals → Locals
key_byte c l = record l { pkey = l.pkey ++ (c ∷ []) }

abbrev pub value_byte : ℕ → Locals → Locals
value_byte c l = record l { pvalue = l.pvalue ++ (c ∷ []) }

abbrev pub newline : Locals → Locals
newline l = record l { line = l.line + 1 }

module _ {j : Judy} {m : Memory} where
  -- `free(config->src)`
  abbrev pub free_src : Config j m → Config j m
  free_src cfg = record cfg { heap = m.free cfg.heap cfg.src }

  -- `free(config->src); config->line_error = line; return ERROR`
  abbrev pub line_failure : Config j m → Locals → Round j m
  line_failure cfg l = error (record (free_src cfg) { line_error = l.line })

  -- after an insertion: on success the next state, on failure `free(config->src); return ERROR`
  abbrev pub after : Stored j m → Locals → Round j m
  after (stored cfg) l = advance cfg l
  after (failed cfg) l = error (free_src cfg)
  after Stored.undefined l = Round.undefined
  after Stored.out_of_fuel l = Round.out_of_fuel

  step_space : Config j m → Locals → ℕ → Round j m
  step_space cfg l c =
      if achar c
      then advance cfg (record l { pkey = c ∷ []; state = param_key_s })
      else if c == b' ' || c == b'\t' || c == b'\r'
      then advance cfg l
      else if c == b'\n'
      then advance cfg (newline l)
      else if c == b'#'
      then advance cfg (goto comment_s l)
      else line_failure cfg l

  step_comment : Config j m → Locals → ℕ → Round j m
  step_comment cfg l c = advance cfg (if c == b'\n' then goto space_s (newline l) else l)

  step_key : Config j m → Locals → ℕ → Round j m
  step_key cfg l c =
      if achar c
      then advance cfg (key_byte c l)
      else if c == b' ' || c == b'\t'
      then (if ltb config_key_max_size (length l.pkey)
          then line_failure cfg l
          else advance cfg (goto param_key_sp_s l))
      else line_failure cfg l

  step_key_sp : Config j m → Locals → ℕ → Round j m
  step_key_sp cfg l c =
      if c == b' ' || c == b'\t'
      then advance cfg l
      else if c == b'"'
      then advance cfg (record l { pvalue = []; state = param_qt_value_s })
      else if c == b'@'
      then advance cfg (record l { pvalue = []; state = param_copy_value_s })
      else if c == b'\r' || c == b'\n'
      then line_failure cfg l
      else advance cfg (record l { pvalue = c ∷ []; state = param_value_s })

  step_value : Config j m → Locals → ℕ → Round j m
  step_value cfg l c =
      if c == b';'
      then after (insert cfg l.pkey (some l.pvalue)) (goto space_s l)
      else if c == b'\n'
      then line_failure cfg l
      else advance cfg (value_byte c l)

  -- `ahead` is `p[1]`
  step_qt_value : Config j m → Locals → ℕ → ℕ → Round j m
  step_qt_value cfg l c ahead =
      if c == b'\\' && ahead == b'"'
      then skip cfg (value_byte ahead (value_byte c l))
      else if c == b'"'
      then after (insert cfg l.pkey (some l.pvalue)) (goto param_value_skip_s l)
      else if c == b'\n'
      then line_failure cfg l
      else advance cfg (value_byte c l)

  step_value_skip : Config j m → Locals → ℕ → Round j m
  step_value_skip cfg l c =
      if c == b';'
      then advance cfg (goto space_s l)
      else if c == b'\n'
      then line_failure cfg l
      else advance cfg l

  step_copy_value : ℕ → Config j m → Locals → ℕ → Round j m
  step_copy_value fuel cfg l c =
      if c == b';'
      then (if ltb config_key_max_size (length l.pvalue)
          then line_failure cfg l
          else after (copy_loop fuel l.pkey l.pvalue cfg (j.first cfg.entries (c_string l.pvalue)))
              (goto space_s l))
      else if c == b'\n'
      then line_failure cfg l
      else advance cfg (value_byte c l)

  -- `switch (state)`; `fuel` bounds the loop of a copy
  unfoldable pub step_in : State → ℕ → Config j m → Locals → ℕ → ℕ → Round j m
  unfolding step_space step_comment step_key step_key_sp step_value step_qt_value step_value_skip
      step_copy_value
  step_in space_s fuel cfg l c ahead = step_space cfg l c
  step_in comment_s fuel cfg l c ahead = step_comment cfg l c
  step_in param_key_s fuel cfg l c ahead = step_key cfg l c
  step_in param_key_sp_s fuel cfg l c ahead = step_key_sp cfg l c
  step_in param_value_s fuel cfg l c ahead = step_value cfg l c
  step_in param_qt_value_s fuel cfg l c ahead = step_qt_value cfg l c ahead
  step_in param_value_skip_s fuel cfg l c ahead = step_value_skip cfg l c
  step_in param_copy_value_s fuel cfg l c ahead = step_copy_value fuel cfg l c

  -- What follows a round: `p++` and on with the loop, by `more` or, a byte further, by `beyond`.
  abbrev pub resume : Round j m → (more beyond : Config j m → Locals → Loaded j m) → Loaded j m
  resume (advance cfg l) more beyond = more cfg l
  resume (skip cfg l) more beyond = beyond cfg l
  resume (error cfg) more beyond = err cfg
  resume Round.undefined more beyond = Loaded.undefined
  resume Round.out_of_fuel more beyond = Loaded.out_of_fuel

  -- behind the loop: `free(config->src); return OK`
  abbrev pub finish : Config j m → Locals → Loaded j m
  finish cfg l = ok (free_src cfg)

  -- `while (p < end)` over the bytes from `p`; the buffer ends in a NUL, which `p[1]` may read
  unfoldable pub parse : ℕ → Bytes → Config j m → Locals → Loaded j m
  parse fuel [] cfg l = finish cfg l
  parse fuel (c ∷ []) cfg l = resume (step_in l.state fuel cfg l c 0) finish finish
  parse fuel (c ∷ d ∷ rest) cfg l =
      resume (step_in l.state fuel cfg l c d) (λ cfg' l'. parse fuel (d ∷ rest) cfg' l')
        (λ cfg' l'. parse fuel rest cfg' l')
