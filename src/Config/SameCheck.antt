-- ===== src/Config/SameCheck.antt =====
-- `config_test2` of src/config.c against `config_load2`, on texts that `config_load2` accepts.
use libhelp.Base.{
  c_string, ℕ, ◌+◌, ◌≡◌, refl, ap, ◌∙◌, Option, Bool, true, false, some, none, [], ◌∷◌, Bytes, ltb,
  ◌==◌, if◌then◌else◌, length, ◌||◌, ◌&&◌, subst,
}
use libhelp.Config.Load.{no_error, free_conf}
use libhelp.Config.Judy.{Judy, Memory}
use libhelp.Config.Insert.{config_key_max_size, Stored, stored, failed, insert, copy_loop}
use libhelp.Config.Switch.{achar, step_in, resume, finish, parse, start, goto, after}
use libhelp.Config.Check.{
  Errors, no_errors, Pass, go, go_beyond, Checked, listed, null, pass_after, check_in, pass_on,
  grow, finish_check, check_loop, check_text, config_test2,
}
use libhelp.Config.Types.{
  State, space_s, comment_s, param_key_s, param_key_sp_s, param_value_s, param_qt_value_s,
  param_value_skip_s, param_copy_value_s, Config, Locals, Round, advance, skip, error, Loaded, ok,
  err,
}

module _ {j : Judy} {m : Memory} where
  -- What `config_test2` does in a round that `config_load2` survives: the same.
  data Follows (e : Errors) : Round j m → Pass j m → Type 0 where
    goes : {cfg : Config j m} {l : Locals} → Follows e (advance cfg l) (go cfg l e)
    goes_beyond : {cfg : Config j m} {l : Locals} → Follows e (skip cfg l) (go_beyond cfg l e)
    fails : {cfg : Config j m} {r : Pass j m} → Follows e (error cfg) r
    breaks : {r : Pass j m} → Follows e Round.undefined r
    lacks_fuel : {r : Pass j m} → Follows e Round.out_of_fuel r

  both :
      (e : Errors) (b : Bool) {x y : Round j m} {x' y' : Pass j m}
      → Follows e x x'
      → Follows e y y'
      → Follows e (if b then x else y) (if b then x' else y')
  both e true h k = h
  both e false h k = k

  after-Follows :
      (e : Errors) (s : Stored j m) (l : Locals) → Follows e (after s l) (pass_after s l e)
  after-Follows e (stored cfg) l = goes
  after-Follows e (failed cfg) l = fails
  after-Follows e Stored.undefined l = breaks
  after-Follows e Stored.out_of_fuel l = lacks_fuel

  check_in-Follows :
      (s : State) (fuel : ℕ) (cfg : Config j m) (l : Locals) (e : Errors) (c ahead : ℕ)
      → Follows e (step_in s fuel cfg l c ahead) (check_in s fuel cfg l e c ahead)
  unfolding step_in check_in
  check_in-Follows space_s fuel cfg l e c ahead = both e (achar c) goes (
      both e (c == b' ' || c == b'\t' || c == b'\r') goes
        (both e (c == b'\n') goes (both e (c == b'#') goes fails)))
  check_in-Follows comment_s fuel cfg l e c ahead = goes
  check_in-Follows param_key_s fuel cfg l e c ahead = both e (achar c) goes (
      both e (c == b' ' || c == b'\t') (both e (ltb config_key_max_size (length l.pkey)) fails goes)
        fails)
  check_in-Follows param_key_sp_s fuel cfg l e c ahead = both e (c == b' ' || c == b'\t') goes (
      both e (c == b'"') goes
        (both e (c == b'@') goes (both e (c == b'\r' || c == b'\n') fails goes)))
  check_in-Follows param_value_s fuel cfg l e c ahead =
      both e (c == b';') (after-Follows e (insert cfg l.pkey (some l.pvalue)) (goto space_s l))
        (both e (c == b'\n') fails goes)
  check_in-Follows param_qt_value_s fuel cfg l e c ahead =
      both e (c == b'\\' && ahead == b'"') goes_beyond (
        both e (c == b'"')
          (after-Follows e (insert cfg l.pkey (some l.pvalue)) (goto param_value_skip_s l))
          (both e (c == b'\n') fails goes))
  check_in-Follows param_value_skip_s fuel cfg l e c ahead =
      both e (c == b';') goes (both e (c == b'\n') fails goes)
  check_in-Follows param_copy_value_s fuel cfg l e c ahead =
      both e (c == b';')
        (both e (ltb config_key_max_size (length l.pvalue)) fails (
          after-Follows e
            (copy_loop fuel l.pkey l.pvalue cfg (j.first cfg.entries (c_string l.pvalue)))
            (goto space_s l)))
        (both e (c == b'\n') fails goes)

  -- the same for the rest of the loop, with an array in which no line is stored
  data Lists (array : ℕ) : Loaded j m → Checked j m → Type 0 where
    lists :
        {cfg : Config j m} (i : ℕ)
        → Lists array (ok cfg) (listed cfg (record (no_errors array) { index = i }))
    failed_load : {cfg : Config j m} {r : Checked j m} → Lists array (err cfg) r
    broken : {r : Checked j m} → Lists array Loaded.undefined r
    no_fuel : {r : Checked j m} → Lists array Loaded.out_of_fuel r

  resume-Lists :
      (array i : ℕ) (r : Round j m) (r' : Pass j m)
      → Follows (record (no_errors array) { index = i }) r r'
      → {more beyond : Config j m → Locals → Loaded j m}
        (more' beyond' : Config j m → Locals → Errors → Checked j m)
      → ((cfg : Config j m) (l : Locals)
          → Lists array (more cfg l) (more' cfg l (record (no_errors array) { index = i + 1 })))
      → ((cfg : Config j m) (l : Locals)
          → Lists array (beyond cfg l) (beyond' cfg l (record (no_errors array) { index = i + 1 })))
      → Lists array (resume r more beyond) (pass_on r' more' beyond')
  resume-Lists array i (advance cfg l) _ goes more' beyond' k k' = k cfg l
  resume-Lists array i (skip cfg l) _ goes_beyond more' beyond' k k' = k' cfg l
  resume-Lists array i (error cfg) r' fails more' beyond' k k' = failed_load
  resume-Lists array i Round.undefined r' breaks more' beyond' k k' = broken
  resume-Lists array i Round.out_of_fuel r' lacks_fuel more' beyond' k k' = no_fuel

  finish-Lists :
      (array i : ℕ) (cfg : Config j m) (l : Locals)
      → Lists array (finish cfg l) (finish_check cfg l (record (no_errors array) { index = i }))
  finish-Lists array i cfg l = lists i

  check_loop-Lists :
      (fuel array i : ℕ) (text : Bytes) (cfg : Config j m) (l : Locals)
      → Lists array
          (parse fuel text cfg l)
          (check_loop fuel text cfg l (record (no_errors array) { index = i }))
  unfolding parse check_loop grow
  check_loop-Lists fuel array i [] cfg l = finish-Lists array i cfg l
  check_loop-Lists fuel array i (c ∷ []) cfg l =
      resume-Lists array i _ _ (check_in-Follows l.state fuel cfg l _ c 0) finish_check finish_check
        (finish-Lists array (i + 1)) (finish-Lists array (i + 1))
  check_loop-Lists fuel array i (c ∷ d ∷ rest) cfg l =
      resume-Lists array i _ _ (check_in-Follows l.state fuel cfg l _ c d)
        (check_loop fuel (d ∷ rest)) (check_loop fuel rest)
        (check_loop-Lists fuel array (i + 1) (d ∷ rest)) (check_loop-Lists fuel array (i + 1) rest)

  abbrev IsListed : ℕ → Loaded j m → Checked j m → Type 0
  IsListed array (ok cfg) r = (i : ℕ) × (r ≡ listed cfg (record (no_errors array) { index = i }))
  IsListed array (err cfg) r = Unit
  IsListed array Loaded.undefined r = Unit
  IsListed array Loaded.out_of_fuel r = Unit

  Lists-IsListed :
      (array : ℕ) {l : Loaded j m} {r : Checked j m} → Lists array l r → IsListed array l r
  Lists-IsListed array (lists i) = (i, refl)
  Lists-IsListed array failed_load = tt
  Lists-IsListed array broken = tt
  Lists-IsListed array no_fuel = tt

  -- When both allocations of `config_test2` succeed and the loop of `config_load2` accepts the text,
  -- `config_test2` returns an array with no line in it and a count of 0, and leaves the configuration
  -- as that loop does.
  pub config_test2-parse :
      (fuel array at : ℕ) (cfg cfg' : Config j m) (str : Bytes) {h1 h2 : m.Heap}
      → m.alloc cfg.heap 200 ≡ (some array, h1)
      → m.alloc (free_conf (no_error (record cfg { heap = h1 }))).heap (length str + 1)
        ≡ (some at, h2)
      → parse fuel str
          (record (free_conf (no_error (record cfg { heap = h1 }))) { heap = h2; src = at })
          start
        ≡ ok cfg'
      → (i : ℕ) × (config_test2 fuel cfg str ≡ listed cfg' (record (no_errors array) { index = i }))
  unfolding config_test2
  config_test2-parse fuel array at cfg cfg' str {h1} {h2} got got' accepted =
      let base = free_conf (no_error (record cfg { heap = h1 })) in
      let c : Config j m = record base { heap = h2; src = at } in
      let looped : Option ℕ → m.Heap → Checked j m = λ o h. elim o [
        | none ↦ null (record base { heap = h })
        | some a ↦ check_loop fuel str (record base { heap = h; src = a }) start (no_errors array)
      ] in
      let tested : Option ℕ → m.Heap → Checked j m = λ o h. elim o [
        | none ↦ null (record cfg { heap = h })
        | some a ↦ check_text fuel (free_conf (no_error (record cfg { heap = h }))) str a
      ] in
      let (i, same) =
        subst (λ l. IsListed array l (check_loop fuel str c start (no_errors array))) accepted
          (Lists-IsListed array (check_loop-Lists fuel array 0 str c start)) in
      (i, ap (λ r. tested r.0 r.1) got ∙ ap (λ r. looped r.0 r.1) got' ∙ same)
