-- ===== src/Lockrun/Tests.antt =====
-- Runs of src/lockrun.c, and its theorems at concrete command lines.
use libhelp.Base.{◌≡◌, refl, arith, true, false, some, List, [], ◌∷◌, ◌++◌, Bytes, codes, ltb, pos}
use libhelp.Lockrun.{
  Options, defaults, System, in_child, in_parent, Ending, runs, exits, command, options, acquired,
  lock_loop, main,
}
use libhelp.Lockrun.Settings.{Setting, joined, apart, short, long, print_all, options-print_all}
use libhelp.Lockrun.Wait.{lock_loop-Decides}
use libhelp.Lockrun.Started.{Started, main-Started}

-- A system where the lock is free at the third try, and every number reads as 3.
abbrev sys : System
sys = record {
  atoi = λ s. pos 3;
  opens = λ f. true;
  locked = λ n. ltb n 2;
  fork = in_child true;
  exit_status = λ s. some s;
}

abbrev settings : List Setting
settings =
    Setting.lockfile long joined (codes "/tmp/a=b")
    ∷ Setting.wait short
    ∷ Setting.retries long apart (codes "3")
    ∷ []

abbrev job : List Bytes
job = codes "make" ∷ codes "--wait" ∷ []

abbrev argv : List Bytes
argv = print_all settings ++ (codes "--" ∷ job)

abbrev waiting : Options
waiting = record defaults {
  lockfile = some (codes "/tmp/a=b");
  wait_for_lock = true;
  retries = pos 3;
}

options-print_all_example : options sys argv defaults ≡ command waiting job
options-print_all_example = options-print_all sys settings job defaults

lock_loop-Decides_example : lock_loop 3 sys waiting 0 ≡ acquired 2
lock_loop-Decides_example =
    lock_loop-Decides sys waiting refl 3 refl (omega arith) 3 2 (omega arith) (omega arith)
      (omega arith) (λ i lt. ground (arith, lt)) (λ lt. refl)

started : main 5 sys argv ≡ runs job
unfolding main
started = refl

main-Started_example : Started sys argv job
main-Started_example = main-Started 5 sys argv job started

-- the last option lacks its value
missing_value : main 5 sys (codes "-W" ∷ codes "-L" ∷ []) ≡ exits 1
unfolding main
missing_value = refl

-- no lock file is named
no_lockfile : main 5 sys (codes "--" ∷ job) ≡ exits 1
unfolding main
no_lockfile = refl

-- without `--wait` a locked run ends at once, with success if it is quiet
quiet_run : main 5 sys (codes "-q" ∷ codes "-L=f" ∷ codes "--" ∷ job) ≡ exits 0
unfolding main
quiet_run = refl

-- `execvp` returns
no_such_command : main 5 (record sys { fork = in_child false }) argv ≡ Ending.undefined
unfolding main
no_such_command = refl

-- the parent ends with the status of the child
reflected : main 5 (record sys { fork = in_parent (some 7) }) argv ≡ exits 7
unfolding main
reflected = refl
