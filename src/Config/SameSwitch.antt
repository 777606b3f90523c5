-- ===== src/Config/SameSwitch.antt =====
-- The two copies of the parser in src/config.c agree.
use libhelp.Base.{ℕ, ◌+◌, ◌≡◌, refl, [], ◌∷◌, Bytes, some, arith, length, ==_iff}
use libhelp.Config.FileSwitch.{file_in, parse_file}
use libhelp.Config.Judy.{Judy, Memory}
use libhelp.Config.Load.{opened, config_load, read_file, free_conf, no_error, with_buffers}
use libhelp.Config.Switch.{step_in, resume, finish, parse, start}
use libhelp.Config.Types.{State, space_s, param_qt_value_s, Config, Locals}

module _ {j : Judy} {m : Memory} where
  file_in-step_in :
      (s : State) (fuel : ℕ) (cfg : Config j m) (l : Locals) (c ahead : ℕ)
      → file_in s fuel cfg l c ahead ≡ step_in s fuel cfg l c ahead
  unfolding file_in step_in
  file_in-step_in space_s fuel cfg l c ahead = refl
  file_in-step_in _ fuel cfg l c ahead = refl

  -- At the last byte it makes no difference what `p[1]` reads.
  last_byte :
      (s : State) (fuel : ℕ) (cfg : Config j m) (l : Locals) (c ahead ahead' : ℕ)
      → resume (step_in s fuel cfg l c ahead) finish finish
        ≡ resume (step_in s fuel cfg l c ahead') finish finish
  unfolding step_in
  last_byte param_qt_value_s fuel cfg l c ahead ahead' = ground arith
  last_byte _ fuel cfg l c ahead ahead' = refl

  pub parse_file-parse :
      (fuel beyond : ℕ) (text : Bytes) (cfg : Config j m) (l : Locals)
      → parse_file fuel beyond text cfg l ≡ parse fuel text cfg l
  unfolding parse_file parse
  parse_file-parse fuel beyond [] cfg l = refl
  parse_file-parse fuel beyond (c ∷ []) cfg l =
      rw file_in-step_in (last_byte l.state fuel cfg l c beyond 0)
  parse_file-parse fuel beyond (c ∷ d ∷ rest) cfg l = λ i.
      resume (file_in-step_in l.state fuel cfg l c d i)
        (λ cfg' l'. parse_file-parse fuel beyond (d ∷ rest) cfg' l' i)
        (λ cfg' l'. parse_file-parse fuel beyond rest cfg' l' i)

  read_file-parse :
      (fuel beyond : ℕ) (text : Bytes) (p : ℕ) (cfg : Config j m)
      → read_file fuel beyond (length text) text p cfg
        ≡ parse fuel text (record cfg { conf = some (p, text) }) start
  unfolding read_file
  read_file-parse fuel beyond text p cfg =
      rw ((==_iff (length text) (length text)).1 refl) (parse_file-parse fuel beyond text _ start)

  -- When `read` returns the whole file, `config_load` allocates its buffers and then does what the
  -- loop of `config_load2` does on the text, whatever the byte behind the text in the buffer is.
  pub config_load-parse :
      (fuel beyond : ℕ) (text : Bytes) (cfg : Config j m)
      → config_load fuel beyond cfg (opened (length text) text)
        ≡ with_buffers
            (length text + 1)
            (length text + 2)
            (free_conf (no_error cfg))
            (λ p b. parse fuel text (record b { conf = some (p, text) }) start)
  unfolding config_load
  config_load-parse fuel beyond text cfg = λ i.
      with_buffers (length text + 1) (length text + 2) (free_conf (no_error cfg))
        (λ p b. read_file-parse fuel beyond text p b i)
