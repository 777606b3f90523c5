-- ===== src/Config/Check.antt =====
-- The switch of `config_test2` in src/config.c, which does not stop at a refused byte: it stores the
-- line in an array, at the number of the round, and goes on in the same state.
use libhelp.Base.{
  c_string, ℕ, ◌+◌, ◌*◌, ◌||◌, ◌&&◌, none, some, List, [], ◌∷◌, ◌++◌, Bytes, ltb, leb, ◌==◌,
  if◌then◌else◌, length,
}
use libhelp.Config.Insert.{config_key_max_size, Stored, stored, failed, insert, copy_loop}
use libhelp.Config.Judy.{Judy, Memory}
use libhelp.Config.Load.{no_error, free_conf}
use libhelp.Config.Switch.{achar, start, goto, key_byte, value_byte, newline, free_src}
use libhelp.Config.Types.{
  State, space_s, comment_s, param_key_s, param_key_sp_s, param_value_s, param_qt_value_s,
  param_value_skip_s, param_copy_value_s, Config, Locals,
}

-- `error_arr`, its size in elements, the lines stored in it with their places, `count_err` and `_index`
pub record Errors : Type 0 where
  pub array : ℕ
  pub room : ℕ
  pub lines : List (ℕ × ℕ)
  pub count : ℕ
  pub index : ℕ

-- `_index++`
abbrev pub counted : Errors → Errors
counted e = record e { index = e.index + 1 }

abbrev pub no_errors : ℕ → Errors
no_errors array = record { array = array; room = 50; lines = []; count = 0; index = 0 }

-- one round: `go` ends in `p++; _index++`, `go_beyond` does a `p++` of its own before
pub data Pass (j : Judy) (m : Memory) : Type 0 where
  go : Config j m → Locals → Errors → Pass j m
  go_beyond : Config j m → Locals → Errors → Pass j m
  -- `return NULL`
  stop : Config j m → Pass j m
  undefined : Pass j m
  out_of_fuel : Pass j m

-- what `config_test2` returns, with the configuration that it leaves
pub data Checked (j : Judy) (m : Memory) : Type 0 where
  listed : Config j m → Errors → Checked j m
  null : Config j m → Checked j m
  undefined : Checked j m
  out_of_fuel : Checked j m

module _ {j : Judy} {m : Memory} where
  -- `count_err++; error_arr[_index] = line`
  abbrev pub count_line : Config j m → Locals → Errors → Locals → Pass j m
  count_line cfg l e l' =
      if leb e.room e.index
      then Pass.undefined
      else go cfg l' (record e { lines = e.lines ++ ((e.index, l.line) ∷ []); count = e.count + 1 })

  -- after an insertion
  abbrev pub pass_after : Stored j m → Locals → Errors → Pass j m
  pass_after (stored cfg) l e = go cfg l e
  pass_after (failed cfg) l e = stop cfg
  pass_after Stored.undefined l e = Pass.undefined
  pass_after Stored.out_of_fuel l e = Pass.out_of_fuel

  check_space : Config j m → Locals → Errors → ℕ → Pass j m
  check_space cfg l e c =
      if achar c
      then go cfg (record l { pkey = c ∷ []; state = param_key_s }) e
      else if c == b' ' || c == b'\t' || c == b'\r'
      then go cfg l e
      else if c == b'\n'
      then go cfg (newline l) e
      else if c == b'#'
      then go cfg (goto comment_s l) e
      else count_line cfg l e l

  check_comment : Config j m → Locals → Errors → ℕ → Pass j m
  check_comment cfg l e c = go cfg (if c == b'\n' then goto space_s (newline l) else l) e

  -- `pkey` has all bytes up to `p`, a refused one and a NUL too
  check_key : Config j m → Locals → Errors → ℕ → Pass j m
  check_key cfg l e c =
      if achar c
      then go cfg (key_byte c l) e
      else if c == b' ' || c == b'\t'
      then (if ltb config_key_max_size (length l.pkey)
          then count_line cfg l e (key_byte 0 l)
          else go cfg (goto param_key_sp_s l) e)
      else count_line cfg l e (key_byte c l)

  check_key_sp : Config j m → Locals → Errors → ℕ → Pass j m
  check_key_sp cfg l e c =
      if c == b' ' || c == b'\t'
      then go cfg l e
      else if c == b'"'
      then go cfg (record l { pvalue = []; state = param_qt_value_s }) e
      else if c == b'@'
      then go cfg (record l { pvalue = []; state = param_copy_value_s }) e
      else if c == b'\r' || c == b'\n'
      then count_line cfg l e l
      else go cfg (record l { pvalue = c ∷ []; state = param_value_s }) e

  check_value : Config j m → Locals → Errors → ℕ → Pass j m
  check_value cfg l e c =
      if c == b';'
      then pass_after (insert cfg l.pkey (some l.pvalue)) (goto space_s l) e
      else if c == b'\n'
      then count_line cfg l e (value_byte c l)
      else go cfg (value_byte c l) e

  -- `ahead` is `p[1]`
  check_qt_value : Config j m → Locals → Errors → ℕ → ℕ → Pass j m
  check_qt_value cfg l e c ahead =
      if c == b'\\' && ahead == b'"'
      then go_beyond cfg (value_byte ahead (value_byte c l)) e
      else if c == b'"'
      then pass_after (insert cfg l.pkey (some l.pvalue)) (goto param_value_skip_s l) e
      else if c == b'\n'
      then count_line cfg l e (value_byte c l)
      else go cfg (value_byte c l) e

  check_value_skip : Config j m → Locals → Errors → ℕ → Pass j m
  check_value_skip cfg l e c =
      if c == b';'
      then go cfg (goto space_s l) e
      else if c == b'\n'
      then count_line cfg l e l
      else go cfg l e

  -- a name that is too long is counted and not stored
  check_copy_value : ℕ → Config j m → Locals → Errors → ℕ → Pass j m
  check_copy_value fuel cfg l e c =
      if c == b';'
      then (if ltb config_key_max_size (length l.pvalue)
          then go cfg (value_byte 0 l) (record e { count = e.count + 1 })
          else pass_after
              (copy_loop fuel l.pkey l.pvalue cfg (j.first cfg.entries (c_string l.pvalue)))
              (goto space_s l) e)
      else if c == b'\n'
      then count_line cfg l e (value_byte c l)
      else go cfg (value_byte c l) e

  -- `switch (state)`; `fuel` bounds the loop of a copy
  unfoldable pub check_in : State → ℕ → Config j m → Locals → Errors → ℕ → ℕ → Pass j m
  unfolding check_space check_comment check_key check_key_sp check_value check_qt_value
      check_value_skip check_copy_value
  check_in space_s fuel cfg l e c ahead = check_space cfg l e c
  check_in comment_s fuel cfg l e c ahead = check_comment cfg l e c
  check_in param_key_s fuel cfg l e c ahead = check_key cfg l e c
  check_in param_key_sp_s fuel cfg l e c ahead = check_key_sp cfg l e c
  check_in param_value_s fuel cfg l e c ahead = check_value cfg l e c
  check_in param_qt_value_s fuel cfg l e c ahead = check_qt_value cfg l e c ahead
  check_in param_value_skip_s fuel cfg l e c ahead = check_value_skip cfg l e c
  check_in param_copy_value_s fuel cfg l e c ahead = check_copy_value fuel cfg l e c

  -- what follows a round
  abbrev pub pass_on :
      Pass j m → (more beyond : Config j m → Locals → Errors → Checked j m) → Checked j m
  pass_on (go cfg l e) more beyond = more cfg l (counted e)
  pass_on (go_beyond cfg l e) more beyond = beyond cfg l (counted e)
  pass_on (stop cfg) more beyond = null cfg
  pass_on Pass.undefined more beyond = Checked.undefined
  pass_on Pass.out_of_fuel more beyond = Checked.out_of_fuel

  -- at the head of the loop: an array that is full is doubled, with 4 bytes for an element
  unfoldable pub grow : Config j m → Errors → (Config j m → Errors → Checked j m) → Checked j m
  grow cfg e body =
      let (array, heap) = m.realloc cfg.heap e.array (4 * (e.room + e.room)) in
      let grown : Checked j m = elim array [
        | none ↦ null (record cfg { heap = heap })
        | some a ↦
            body (record cfg { heap = heap }) (record e { array = a; room = e.room + e.room })
      ] in
      if leb e.room e.count then grown else body cfg e

  -- behind the loop
  abbrev pub finish_check : Config j m → Locals → Errors → Checked j m
  finish_check cfg l e = listed (free_src cfg) e

  -- `while (p < end)`
  unfoldable pub check_loop : ℕ → Bytes → Config j m → Locals → Errors → Checked j m
  unfolding check_in grow
  check_loop fuel [] cfg l e = finish_check cfg l e
  check_loop fuel (c ∷ []) cfg l e =
      grow cfg e
        (λ cfg0 e0. pass_on (check_in l.state fuel cfg0 l e0 c 0) finish_check finish_check)
  check_loop fuel (c ∷ d ∷ rest) cfg l e = grow cfg e (λ cfg0 e0.
      pass_on (check_in l.state fuel cfg0 l e0 c d)
        (λ cfg' l' e'. check_loop fuel (d ∷ rest) cfg' l' e')
        (λ cfg' l' e'. check_loop fuel rest cfg' l' e'))

  -- behind the allocation of `error_arr`
  abbrev pub check_text : ℕ → Config j m → Bytes → ℕ → Checked j m
  check_text fuel cfg str array =
      let (src, heap) = m.alloc cfg.heap (length str + 1) in
      elim src [
        | none ↦ null (record cfg { heap = heap })
        | some at ↦
            check_loop fuel str (record cfg { heap = heap; src = at }) start (no_errors array)
      ]

  unfoldable pub config_test2 : ℕ → Config j m → Bytes → Checked j m
  unfolding free_conf check_loop
  config_test2 fuel cfg str =
      let (array, heap) = m.alloc cfg.heap (50 * 4) in
      let cfg' : Config j m = record cfg { heap = heap } in
      elim array [ none ↦ null cfg' | some a ↦ check_text fuel (free_conf (no_error cfg')) str a ]
