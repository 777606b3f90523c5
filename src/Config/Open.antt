-- ===== src/Config/Open.antt =====
-- Lines that end inside a value: what `config_load2` of src/config.c makes of them, and what
-- `config_test` does.
use libhelp.Base.{
  c_string, ℕ, ◌+◌, ◌≡◌, refl, sym, ap, ◌∙◌, false, some, [], ◌∷◌, ◌++◌, append-nil, arith, Bytes,
  ◌==◌, All, length,
}
use libhelp.Config.Buffers.{free_conf-SameEntries, with_buffers-some}
use libhelp.Config.Judy.{Judy, Memory, IsPlentiful}
use libhelp.Config.Load.{config_load2, no_error, free_conf}
use libhelp.Config.New.{test_buffer}
use libhelp.Config.RoundTrip.{at, parse_advance, parse-IsKey, parse-IsInside}
use libhelp.Config.Switch.{step_in, parse, start, free_src}
use libhelp.Config.Text.{IsKey, IsBare}
use libhelp.Config.Types.{param_key_sp_s, param_value_s, Config, ok, err}

-- The buffer in which `config_test` puts a line holds the line alone: a NUL stands before the newlines.
pub c_string-test_buffer :
    (line : Bytes) → All (λ c. (c == 0) ≡ false) line → c_string (test_buffer line) ≡ line
unfolding c_string
c_string-test_buffer [] h = refl
c_string-test_buffer (c ∷ line) h = rw h.0 (ap (◌∷◌ c) (c_string-test_buffer line h.1))

module _ {j : Judy} {m : Memory} (room : IsPlentiful j m) (fuel : ℕ) where
  parse-open :
      (k v rest : Bytes) (cfg : Config j m)
      → IsKey k
      → IsBare v
      → parse fuel (k ++ (b' ' ∷ (v ++ rest))) cfg start
        ≡ parse fuel rest cfg (at param_value_s 1 k v)
  parse-open k [] rest cfg hk hv = absurd hv
  parse-open k (c ∷ v) rest cfg hk hv =
      parse-IsKey fuel k _ cfg 1 [] [] hk
      ∙ parse_advance fuel c _ cfg cfg (at param_key_sp_s 1 k []) (at param_value_s 1 k (c ∷ []))
          (λ ahead. unfold step_in in ground arith)
      ∙ parse-IsInside fuel v rest cfg 1 k (c ∷ []) hv.1

  parse-newline :
      (k v : Bytes) (cfg : Config j m)
      → parse fuel (b'\n' ∷ []) cfg (at param_value_s 1 k v)
        ≡ err (record (free_src cfg) { line_error = 1 })
  unfolding parse step_in
  parse-newline k v cfg = refl

  parse-end :
      (k v : Bytes) (cfg : Config j m)
      → parse fuel [] cfg (at param_value_s 1 k v) ≡ ok (free_src cfg)
  unfolding parse
  parse-end k v cfg = refl

  loads :
      (text : Bytes) (cfg : Config j m)
      → (b : Config j m) × (b.line_error ≡ 0)
        × (b.entries ≡ cfg.entries)
        × (config_load2 fuel cfg text ≡ parse fuel text b start)
  unfolding config_load2
  loads text cfg =
      let freed = free_conf-SameEntries (no_error cfg) in
      let (p, b, same, runs) =
        with_buffers-some room (length text + 1) (length text + 1) (free_conf (no_error cfg))
          (λ q c. parse fuel text (record c { conf = some (q, text) }) start) in
      (
        record b { conf = some (p, text) },
        same.line_error ∙ freed.line_error,
        same.entries ∙ freed.entries,
        runs,
      )

  -- A line with a key and the beginning of a bare value, and no semicolon. With the newline that ends
  -- it `config_load2` fails and reports line 1. What `config_test` hands over for the line makes
  -- `config_load2` succeed, report no line and store nothing: the value is dropped.
  pub config_load2_open :
      (k v : Bytes) (cfg : Config j m)
      → IsKey k
      → IsBare v
      → All (λ c. (c == 0) ≡ false) (k ++ (b' ' ∷ v))
      → (whole tested : Config j m) × (config_load2 fuel cfg (k ++ (b' ' ∷ (v ++ (b'\n' ∷ []))))
          ≡ err whole)
        × (whole.line_error ≡ 1)
        × (config_load2 fuel cfg (c_string (test_buffer (k ++ (b' ' ∷ v)))) ≡ ok tested)
        × (tested.line_error ≡ 0)
        × (tested.entries ≡ cfg.entries)
  config_load2_open k v cfg hk hv nuls =
      let (b, zero_line, same, runs) = loads (k ++ (b' ' ∷ (v ++ (b'\n' ∷ [])))) cfg in
      let line = k ++ (b' ' ∷ (v ++ [])) in
      let (b', zero_line', same', runs') = loads line cfg in
      let line_is : c_string (test_buffer (k ++ (b' ' ∷ v))) ≡ line =
        c_string-test_buffer (k ++ (b' ' ∷ v)) nuls
        ∙ ap (λ s. k ++ (b' ' ∷ s)) (sym (append-nil v)) in
      (
        record (free_src b) { line_error = 1 },
        free_src b',
        runs ∙ parse-open k v (b'\n' ∷ []) b hk hv ∙ parse-newline k v b,
        refl,
        ap (config_load2 fuel cfg) line_is ∙ runs' ∙ parse-open k v [] b' hk hv ∙ parse-end k v b',
        zero_line',
        same',
      )
