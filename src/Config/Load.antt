-- ===== src/Config/Load.antt =====
-- `config_load` and `config_load2` of src/config.c around their loops.
use libhelp.Base.{ℕ, ◌+◌, none, some, [], Bytes, ◌==◌, if◌then◌else◌, length}
use libhelp.Config.FileSwitch.{parse_file}
use libhelp.Config.Judy.{Judy, Memory}
use libhelp.Config.Switch.{start, parse, free_src}
use libhelp.Config.Types.{Config, Loaded, err}

-- What `open`, `fstat` and `read` answer: a size, and the bytes that `read` returns.
pub data Source : Type 0 where
  no_open : Source
  no_stat : Source
  opened : ℕ → Bytes → Source

module _ {j : Judy} {m : Memory} where
  -- `config->line_error = 0`
  abbrev pub no_error : Config j m → Config j m
  no_error cfg = record cfg { line_error = 0 }

  -- `if (config->conf != NULL) { free(config->conf); config->conf = NULL; }`
  unfoldable pub free_conf : Config j m → Config j m
  free_conf cfg = elim cfg.conf [
    | none ↦ cfg
    | some (p, _) ↦ record cfg { heap = m.free cfg.heap p; conf = none }
  ]

  -- The two buffers, of these sizes, and what follows their allocation. When the second is refused,
  -- the first stays allocated.
  unfoldable pub with_buffers : ℕ → ℕ → Config j m → (ℕ → Config j m → Loaded j m) → Loaded j m
  with_buffers src_size conf_size cfg body =
      let (src, heap) = m.alloc cfg.heap src_size in
      elim src [
        | none ↦ err (record cfg { heap = heap })
        | some src_at ↦
            let (conf, heap') = m.alloc heap conf_size in
            elim conf [
              | none ↦ err (record cfg { heap = heap'; src = src_at })
              | some conf_at ↦ body conf_at (record cfg { heap = heap'; src = src_at })
            ]
      ]

  unfoldable pub config_load2 : ℕ → Config j m → Bytes → Loaded j m
  unfolding free_conf with_buffers
  config_load2 fuel cfg str =
      with_buffers (length str + 1) (length str + 1) (free_conf (no_error cfg))
        (λ conf_at cfg'. parse fuel str (record cfg' { conf = some (conf_at, str) }) start)

  -- after `read`: a short read frees `src`, and leaves a `conf` full of NULs
  unfoldable pub read_file : ℕ → ℕ → ℕ → Bytes → ℕ → Config j m → Loaded j m
  read_file fuel beyond size text conf_at cfg =
      if length text == size
      then parse_file fuel beyond text (record cfg { conf = some (conf_at, text) }) start
      else err (free_src (record cfg { conf = some (conf_at, []) }))

  unfoldable pub config_load : ℕ → ℕ → Config j m → Source → Loaded j m
  unfolding free_conf with_buffers read_file
  config_load fuel beyond cfg no_open = err (no_error cfg)
  config_load fuel beyond cfg no_stat = err (no_error cfg)
  config_load fuel beyond cfg (opened size text) =
      with_buffers (size + 1) (size + 2) (free_conf (no_error cfg))
        (read_file fuel beyond size text)
