-- ===== src/Config/CheckTests.antt =====
-- `config_test2` of src/config.c on small texts.
use libhelp.Base.{ℕ, ◌≡◌, refl, Option, none, some, List, [], ◌∷◌, ◌++◌, codes, replicate, bytes_eq}
use libhelp.Config.Check.{Checked, listed, no_errors, config_test2}
use libhelp.Config.SameCheck.{config_test2-parse}
use libhelp.Config.Sample.{slots, counting}
use libhelp.Config.Load.{free_conf}
use libhelp.Config.Switch.{achar, start, step_in, parse}
use libhelp.Config.Insert.{insert}
use libhelp.Config.Types.{Config, ok}

abbrev empty : Config slots counting
empty = record { entries = []; heap = 0; src = 0; line_error = 0; conf = none }

abbrev filled : Config slots counting
filled = record empty { entries = (codes "a", some (codes "1")) ∷ []; heap = 3; src = 2 }

accepted : parse 0 (codes "a 1;\n") (record empty { heap = 2; src = 2 }) start ≡ ok filled
unfolding parse step_in achar insert bytes_eq
accepted = refl

config_test2-parse_example :
    (i : ℕ) × (config_test2 0 empty (codes "a 1;\n")
      ≡ listed filled (record (no_errors 1) { index = i }))
unfolding free_conf
config_test2-parse_example =
    config_test2-parse 0 1 2 empty filled (codes "a 1;\n") refl refl accepted

abbrev lines_of : Checked slots counting → Option (List (ℕ × ℕ) × ℕ)
lines_of (listed cfg e) = some (e.lines, e.count)
lines_of _ = none

-- two refused bytes: a place for each round, and the line at the places of these bytes
two : lines_of (config_test2 0 empty (codes "!\n!")) ≡ some ((0, 1) ∷ (2, 2) ∷ [], 2)
unfolding config_test2 achar
two = refl

-- a refused byte behind 50 others is stored past the array
past : config_test2 0 empty (b'#' ∷ (replicate 49 b'x' ++ codes "\n!")) ≡ Checked.undefined
unfolding config_test2 achar
past = refl
