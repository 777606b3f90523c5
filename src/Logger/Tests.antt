-- ===== src/Logger/Tests.antt =====
-- Lines of the log of src/logger.c.
use libhelp.Base.{
  List, [], ◌∷◌, ℕ, ◌≡◌, refl, arith, true, none, some, [], ◌∷◌, ◌++◌, Bytes, codes, replicate, inl,
}
use libhelp.Logger.{
  error, warn, debug, System, Log, Put, done, log_new, log_put, log_set_str_level, header,
  time_text,
}
use libhelp.Logger.Puts.{at_time, log_put-Puts}
use libhelp.Proc.{Str}
use libhelp.Logger.Title.{Statics, ready, shown, setproctitle_init, setproctitle}

record Machine : Type 0 where
  now : ℕ
  written : Bytes

abbrev system : System
system = record {
  Os = Machine;
  malloc = λ os. (true, os);
  free = λ os. os;
  fopen = λ os file. (some 3, os);
  fclose = λ os f. os;
  fwrite = λ os f text. record os { written = os.written ++ text };
  getpid = λ os. 77;
  time = λ os. os.now;
  stamp = λ now. codes "[2026.11.26 17:00:00] ";
  decimal = λ n. codes "77";
}

abbrev machine : Machine
machine = record { now = 5; written = [] }

abbrev log : Log
log = record { level = 2; ts = 0; ts_str = none; pid_str = codes "(77)"; file = none; fd = some 3 }

opened : log_new system machine (codes "x.log") 2 ≡ (some log, machine)
unfolding log_new
opened = refl

log_put-Puts_example :
    log_put system machine log warn (some (codes "a.c", codes "f", 77)) (some (codes "slow"))
    ≡ done (at_time system 5 log) (record machine {
      written = codes "[2026.11.26 17:00:00] warn   (77) in a.c:f:77 slow" ++ (b'\n' ∷ []);
    })
unfolding header time_text
log_put-Puts_example =
    log_put-Puts system machine log 3 warn (some (codes "a.c", codes "f", 77)) (codes "slow")
      (λ e. omega (arith, e)) (inl refl) refl

-- a message of 2100 bytes
too_long : log_put system machine log error none (some (replicate 2100 b'a')) ≡ Put.undefined
unfolding log_put
too_long = refl

filtered : log_put system machine log debug none (some []) ≡ done log machine
unfolding log_put
filtered = refl

levels : (log_set_str_level log (codes "warn")).level ≡ 1
unfolding log_set_str_level
levels = refl

abbrev argv : List Str
argv = record { at = 1000; text = codes "./daemon" } ∷ []

abbrev statics : Statics
statics = record { argv = none; argv_last = 0 }

abbrev initial : Statics
initial = record { argv = none; argv_last = 1008 }

set_up : setproctitle_init (λ n. some 5000) (λ a. 0) statics argv [] ≡ ready initial [] (λ a. 0)
unfolding setproctitle_init
set_up = refl

-- with `argv` stored: the title stands on the last byte of the name
joined :
    (setproctitle (record initial { argv = some argv }) (codes "busy") (codes "d ")).0
    ≡ shown true (codes "dbusy" ++ replicate 3 0)
unfolding setproctitle
joined = refl
