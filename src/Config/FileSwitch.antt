-- ===== src/Config/FileSwitch.antt =====
-- The switch of `config_load` in src/config.c, which stands in the source a second time, and its
-- loop over the bytes of a file.
use libhelp.Base.{c_string, ℕ, ◌||◌, ◌&&◌, some, [], ◌∷◌, Bytes, ltb, ◌==◌, if◌then◌else◌, length}
use libhelp.Config.Insert.{config_key_max_size, insert, copy_loop}
use libhelp.Config.Judy.{Judy, Memory}
use libhelp.Config.Switch.{
  achar, goto, key_byte, value_byte, newline, line_failure, after, resume, finish,
}
use libhelp.Config.Types.{
  State, space_s, comment_s, param_key_s, param_key_sp_s, param_value_s, param_qt_value_s,
  param_value_skip_s, param_copy_value_s, Config, Locals, Round, advance, skip, Loaded,
}

module _ {j : Judy} {m : Memory} where
  file_space : Config j m → Locals → ℕ → Round j m
  file_space cfg l c =
      if achar c
      then advance cfg (record l { pkey = c ∷ []; state = param_key_s })
      else if c == b' ' || c == b'\t' || c == b'\r'
      then advance cfg l
      else if c == b'\n'
      then advance cfg (newline l)
      else if c == b'#'
      then advance cfg (goto comment_s l)
      else line_failure cfg l

  file_comment : Config j m → Locals → ℕ → Round j m
  file_comment cfg l c = advance cfg (if c == b'\n' then goto space_s (newline l) else l)

  file_key : Config j m → Locals → ℕ → Round j m
  file_key cfg l c =
      if achar c
      then advance cfg (key_byte c l)
      else if c == b' ' || c == b'\t'
      then (if ltb config_key_max_size (length l.pkey)
          then line_failure cfg l
          else advance cfg (goto param_key_sp_s l))
      else line_failure cfg l

  file_key_sp : Config j m → Locals → ℕ → Round j m
  file_key_sp cfg l c =
      if c == b' ' || c == b'\t'
      then advance cfg l
      else if c == b'"'
      then advance cfg (record l { pvalue = []; state = param_qt_value_s })
      else if c == b'@'
      then advance cfg (record l { pvalue = []; state = param_copy_value_s })
      else if c == b'\r' || c == b'\n'
      then line_failure cfg l
      else advance cfg (record l { pvalue = c ∷ []; state = param_value_s })

  file_value : Config j m → Locals → ℕ → Round j m
  file_value cfg l c =
      if c == b';'
      then after (insert cfg l.pkey (some l.pvalue)) (goto space_s l)
      else if c == b'\n'
      then line_failure cfg l
      else advance cfg (value_byte c l)

  -- `ahead` is `p[1]`
  file_qt_value : Config j m → Locals → ℕ → ℕ → Round j m
  file_qt_value cfg l c ahead =
      if c == b'\\' && ahead == b'"'
      then skip cfg (value_byte ahead (value_byte c l))
      else if c == b'"'
      then after (insert cfg l.pkey (some l.pvalue)) (goto param_value_skip_s l)
      else if c == b'\n'
      then line_failure cfg l
      else advance cfg (value_byte c l)

  file_value_skip : Config j m → Locals → ℕ → Round j m
  file_value_skip cfg l c =
      if c == b';'
      then advance cfg (goto space_s l)
      else if c == b'\n'
      then line_failure cfg l
      else advance cfg l

  file_copy_value : ℕ → Config j m → Locals → ℕ → Round j m
  file_copy_value fuel cfg l c =
      if c == b';'
      then (if ltb config_key_max_size (length l.pvalue)
          then line_failure cfg l
          else after (copy_loop fuel l.pkey l.pvalue cfg (j.first cfg.entries (c_string l.pvalue)))
              (goto space_s l))
      else if c == b'\n'
      then line_failure cfg l
      else advance cfg (value_byte c l)

  -- `switch (state)`; `fuel` bounds the loop of a copy
  unfoldable pub file_in : State → ℕ → Config j m → Locals → ℕ → ℕ → Round j m
  unfolding file_space file_comment file_key file_key_sp file_value file_qt_value file_value_skip
      file_copy_value
  file_in space_s fuel cfg l c ahead = file_space cfg l c
  file_in comment_s fuel cfg l c ahead = file_comment cfg l c
  file_in param_key_s fuel cfg l c ahead = file_key cfg l c
  file_in param_key_sp_s fuel cfg l c ahead = file_key_sp cfg l c
  file_in param_value_s fuel cfg l c ahead = file_value cfg l c
  file_in param_qt_value_s fuel cfg l c ahead = file_qt_value cfg l c ahead
  file_in param_value_skip_s fuel cfg l c ahead = file_value_skip cfg l c
  file_in param_copy_value_s fuel cfg l c ahead = file_copy_value fuel cfg l c

  -- `while (p < end)` over the bytes from `p`. The buffer of a file has no NUL behind it: `beyond` is
  -- what the allocated byte at `end` happens to hold, which `p[1]` may read.
  unfoldable pub parse_file : ℕ → ℕ → Bytes → Config j m → Locals → Loaded j m
  parse_file fuel beyond [] cfg l = finish cfg l
  parse_file fuel beyond (c ∷ []) cfg l = resume (file_in l.state fuel cfg l c beyond) finish finish
  parse_file fuel beyond (c ∷ d ∷ rest) cfg l =
      resume (file_in l.state fuel cfg l c d) (λ cfg' l'. parse_file fuel beyond (d ∷ rest) cfg' l')
        (λ cfg' l'. parse_file fuel beyond rest cfg' l')
