-- ===== src/Config/New.antt =====
-- The entry points of src/config.c: `config_new`, `config_new2`, `config_delete`, `config_test`.
use libhelp.Base.{
  ℕ, ◌+◌, ◌*◌, Option, none, some, List, [], ◌∷◌, ◌++◌, Bytes, ◌==◌, c_string, if◌then◌else◌,
  length, ltb, set, replicate, is_nil, count,
}
use libhelp.Config.Judy.{Judy, Memory}
use libhelp.Config.Load.{Source, config_load, config_load2}
use libhelp.Config.Types.{Config, Loaded, ok, err}

abbrev pub config_pool_size : ℕ
config_pool_size = 4096

abbrev pub config_pool_rmd_size : ℕ
config_pool_rmd_size = 32

-- What `config_new` returns, with `*line_error`: a configuration, or `NULL`.
pub data Created (j : Judy) (m : Memory) : Type 0 where
  made : Config j m → ℕ → Created j m
  refused : m.Heap → ℕ → Created j m
  undefined : Created j m
  out_of_fuel : Created j m

-- What `config_test` returns: the array with `*size`, or `NULL` (where `*size` may not be set).
pub data Tested (j : Judy) (m : Memory) : Type 0 where
  errors : m.Heap → List ℕ → ℕ → Tested j m
  refused : m.Heap → Option ℕ → Tested j m
  undefined : Tested j m
  out_of_fuel : Tested j m

-- `tmb`: the line, a NUL that `calloc` left, and two newlines
abbrev pub test_buffer : Bytes → Bytes
test_buffer line = line ++ (0 ∷ b'\n' ∷ b'\n' ∷ [])

-- `strtok(str, "\n")` and the calls after it: the parts that are not empty
unfoldable pub tokens : Bytes → Bytes → List Bytes
tokens [] part = if is_nil part then [] else part ∷ []
tokens (c ∷ cs) part =
    let fresh = tokens cs [] in
    let longer = tokens cs (part ++ (c ∷ [])) in
    if c == b'\n' then if is_nil part then fresh else part ∷ fresh else longer

module _ {j : Judy} {m : Memory} where
  -- after the load: `*line_error = config->line_error`, and `pool_delete` unless it was `OK`
  abbrev pub finish : Loaded j m → Created j m
  finish (ok cfg) = made cfg cfg.line_error
  finish (err cfg) = Created.refused (m.pool_delete cfg.heap) cfg.line_error
  finish Loaded.undefined = Created.undefined
  finish Loaded.out_of_fuel = Created.out_of_fuel

  -- The pool and a zeroed `config_t` in it; without one, `refuse` is the result.
  unfoldable pub with_pool {ℓ} : {R : Type ℓ} → m.Heap → (m.Heap → R) → (Config j m → R) → R
  with_pool heap refuse body =
      let (pooled, heap') = m.pool_new heap config_pool_size config_pool_rmd_size in
      if pooled
      then (let (found, heap'') = m.pool_calloc heap' in
          if found
          then body
              (record { entries = j.null; heap = heap''; src = 0; line_error = 0; conf = none })
          else refuse (m.pool_delete heap''))
      else refuse heap'

  -- `line` is what `*line_error` holds before the call
  unfoldable pub config_new : ℕ → ℕ → m.Heap → Source → ℕ → Created j m
  unfolding with_pool
  config_new fuel beyond heap file line =
      with_pool heap (λ h. Created.refused h line)
        (λ cfg. finish (config_load fuel beyond cfg file))

  unfoldable pub config_new2 : ℕ → m.Heap → Bytes → ℕ → Created j m
  unfolding with_pool
  config_new2 fuel heap str line =
      with_pool heap (λ h. Created.refused h line) (λ cfg. finish (config_load2 fuel cfg str))

  -- JSLFA and `pool_delete`; the `config_t` itself is in the pool, its `conf` stays allocated
  unfoldable pub config_delete : Config j m → m.Heap
  config_delete cfg = m.pool_delete cfg.heap

  -- `str_err[i] = config->line_error; free(tmb)`: a write past the end is undefined
  record_line : (List ℕ → Config j m → Tested j m) → ℕ → ℕ → List ℕ → Config j m → Tested j m
  record_line next tmb i found cfg =
      if ltb i (length found)
      then next (set found i cfg.line_error) (record cfg { heap = m.free cfg.heap tmb })
      else Tested.undefined

  -- the loop over the lines of `str`
  test_lines : ℕ → List Bytes → ℕ → List ℕ → Config j m → Tested j m
  unfolding record_line
  test_lines fuel [] i found cfg = errors (config_delete cfg) found (length found)
  test_lines fuel (line ∷ rest) i found cfg =
      let (tmb, heap) = m.alloc cfg.heap (length line + 3) in
      elim tmb [
        | none ↦ Tested.refused heap (some (length found))
        | some tmb_at ↦
            elim (config_load2 fuel (record cfg { heap = heap }) (c_string (test_buffer line))) [
              | ok cfg' ↦ record_line (test_lines fuel rest (i + 1)) tmb_at i found cfg'
              | err cfg' ↦ record_line (test_lines fuel rest (i + 1)) tmb_at i found cfg'
              | Loaded.undefined ↦ Tested.undefined
              | Loaded.out_of_fuel ↦ Tested.out_of_fuel
            ]
      ]

  unfoldable pub config_test : ℕ → m.Heap → Bytes → Tested j m
  unfolding with_pool test_lines
  config_test fuel heap str =
      with_pool heap (λ h. Tested.refused h none)
        (λ cfg.
          let str_count = count b'\n' str in
          if str_count == 0
          then Tested.refused cfg.heap (some 0)
          else (let (str_err, heap') = m.alloc cfg.heap (str_count * 4) in
              elim str_err [
                | none ↦ Tested.refused heap' (some str_count)
                | some _ ↦
                    test_lines fuel (tokens str []) 0 (replicate str_count 0)
                      (record cfg { heap = heap' })
              ]))
