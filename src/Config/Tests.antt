-- ===== src/Config/Tests.antt =====
-- Runs of the parser of src/config.c, and its theorems at a small configuration.
use libhelp.Base.{
  c_string, ℕ, ◌≡◌, refl, Bool, true, false, Option, none, some, List, [], ◌∷◌, arith, Bytes, codes,
  bytes_eq, All, ℤ, pos, negsuc,
}
use libhelp.Config.Get.{config_get_str, config_get_int, config_get_hex, config_get_bool}
use libhelp.Config.Lines.{Refused}
use libhelp.Config.Refused.{config_load2-Refused}
use libhelp.Config.Load.{config_load, config_load2, opened, with_buffers, free_conf, no_error}
use libhelp.Config.Lossless.{config_load2-print_all}
use libhelp.Config.Open.{config_load2_open}
use libhelp.Config.SameSwitch.{config_load-parse}
use libhelp.Config.Values.{config_get_int-itoa}
use libhelp.Config.New.{
  Created, made, Tested, errors, config_new2, config_test, tokens, test_buffer,
}
use libhelp.Config.Order.{bytes_lt}
use libhelp.Config.Sample.{slots, slots-IsMap, counting, counting-IsPlentiful}
use libhelp.Config.Switch.{achar, start, step_in, parse}
use libhelp.Config.Insert.{insert, copy_loop}
use libhelp.Str.{atoui_int, itoa}
use libhelp.Config.Text.{
  Item, quoted, bare, comment, blank, print_all, give_all, IsKey, nil, plain, escaped, IsItem,
}
use libhelp.Config.Types.{Config, ok, err}

abbrev text : Bytes
text = codes "# net\nip \"10.0.0.1\";\nport 80;\n\nneg -5;\nmask ff;\nup yes;\nnew.port @port;\n"

abbrev Answer : Type 0
Answer = Option Bytes × Option ℤ × Option ℤ × Option ℤ × Option ℤ

abbrev ask : Created slots counting → Answer
ask (made cfg line) = (
  config_get_str cfg (codes "ip") none,
  config_get_int cfg (codes "port") (pos 0),
  config_get_int cfg (codes "neg") (pos 0),
  config_get_hex cfg (codes "mask") (pos 0),
  config_get_bool cfg (codes "up") (pos 0),
)
ask _ = (none, none, none, none, none)

reads :
    ask (config_new2 10 0 text 0)
    ≡ (some (codes "10.0.0.1"), some (pos 80), some (negsuc 4), some (pos 255), some (pos 1))
unfolding config_new2 config_get_str config_get_int config_get_hex config_get_bool config_load2
    parse step_in achar insert copy_loop bytes_eq bytes_lt atoui_int c_string
reads = refl

-- What `config_test` finds: the line without an end is not reported.
tested : List ℕ → Tested slots counting → Bool
tested found (errors heap lines size) = bytes_eq lines found
tested found _ = false

test_misses_open_lines :
    tested (0 ∷ 1 ∷ 0 ∷ []) (config_test 10 0 (codes "a b;\n!\nkey value\n")) ≡ true
unfolding config_test tested config_load2 parse step_in achar insert copy_loop bytes_eq bytes_lt
    tokens c_string
test_misses_open_lines = refl

-- a last line without a newline is written past the end of the array
test_overruns : config_test {j = slots} {m = counting} 10 0 (codes "a b;\nc d;") ≡ Tested.undefined
unfolding config_test config_load2 parse step_in achar insert copy_loop bytes_eq bytes_lt tokens
    c_string
test_overruns = refl

abbrev cfg : Config slots counting
cfg = record { entries = []; heap = 0; src = 0; line_error = 0; conf = none }

abbrev failed_cfg : Config slots counting
failed_cfg = record {
  entries = (codes "a", some (codes "b")) ∷ [];
  heap = 3;
  src = 1;
  line_error = 2;
  conf = some (2, codes "a b;\n!");
}

load_fails : config_load2 {j = slots} {m = counting} 1 cfg (codes "a b;\n!") ≡ err failed_cfg
unfolding config_load2 parse step_in achar insert copy_loop bytes_eq bytes_lt
load_fails = refl

-- the `!` of the second line is refused
config_load2-Refused_example :
    (b : Config slots counting) × (b.entries ≡ [])
    × (config_load2 1 cfg (codes "a b;\n!") ≡ parse 1 (codes "a b;\n!") b start)
    × Refused 1 (codes "a b;\n!") b start failed_cfg
config_load2-Refused_example =
    config_load2-Refused counting-IsPlentiful 1 cfg (codes "a b;\n!") load_fails

config_load-parse_example :
    config_load {j = slots} {m = counting} 1 b'"' cfg (opened 5 (codes "k \"v\\"))
    ≡ with_buffers 6 7
        (free_conf (no_error cfg))
        (λ p b. parse 1 (codes "k \"v\\") (record b { conf = some (p, codes "k \"v\\") }) start)
config_load-parse_example = config_load-parse 1 b'"' (codes "k \"v\\") cfg

abbrev lines : List Item
lines =
    comment (codes "net")
    ∷ quoted (codes "k") (codes "a\\\"b")
    ∷ blank
    ∷ bare (codes "n") (codes "7")
    ∷ []

k-IsKey : IsKey (codes "k")
unfolding achar
k-IsKey = record { chars = (refl, tt); not_empty = λ e. cc; short = omega arith }

name-IsKey : IsKey (codes "key")
unfolding achar
name-IsKey = record { chars = (refl, (refl, (refl, tt))); not_empty = λ e. cc; short = omega arith }

n-IsKey : IsKey (codes "n")
unfolding achar
n-IsKey = record { chars = (refl, tt); not_empty = λ e. cc; short = omega arith }

lines-IsItem : All IsItem lines
lines-IsItem = (
  (refl, (refl, (refl, tt))),
  ((k-IsKey, plain refl (escaped (plain refl nil))), (tt, ((n-IsKey, (refl, tt)), tt))),
)

config_load2-print_all_example :
    (cfg' : Config slots counting) × (config_load2 0 cfg (print_all lines) ≡ ok cfg')
    × ((i : Bytes) → slots.get cfg'.entries i ≡ give_all lines i none)
    × (cfg'.line_error ≡ 0)
    × ((p : ℕ) × (cfg'.conf ≡ some (p, print_all lines)))
config_load2-print_all_example =
    config_load2-print_all slots-IsMap counting-IsPlentiful 0 cfg lines lines-IsItem

config_get_int-itoa_example :
    (out : Bytes) × (plus minus : Config slots counting) × (itoa [] 12 ≡ some out)
    × (config_load2 0 cfg (print_all (bare (codes "k") out ∷ [])) ≡ ok plus)
    × (config_get_int plus (codes "k") (pos 0) ≡ some (pos 12))
    × (config_load2 0 cfg (print_all (bare (codes "k") (b'-' ∷ out) ∷ [])) ≡ ok minus)
    × (config_get_int minus (codes "k") (pos 0) ≡ some (negsuc 11))
config_get_int-itoa_example =
    config_get_int-itoa slots-IsMap counting-IsPlentiful 0 cfg (codes "k") 12 (pos 0) k-IsKey
      (omega arith)

config_load2_open_example :
    (whole tested : Config slots counting) × (config_load2 0 cfg (codes "key value\n") ≡ err whole)
    × (whole.line_error ≡ 1)
    × (config_load2 0 cfg (c_string (test_buffer (codes "key value"))) ≡ ok tested)
    × (tested.line_error ≡ 0)
    × (tested.entries ≡ [])
config_load2_open_example =
    config_load2_open counting-IsPlentiful 0 (codes "key") (codes "value") cfg name-IsKey
      (refl, (refl, (refl, (refl, (refl, tt)))))
      (refl, (refl, (refl, (refl, (refl, (refl, (refl, (refl, (refl, tt)))))))))
