-- ===== src/Proc/Tests.antt =====
-- Titles and daemons of src/proc.c on concrete processes.
use libhelp.Base.{
  leb, ltb, ◌&&◌, length, get_or, All, inl, ℕ, ◌+◌, ◌<◌, ◌≡◌, refl, arith, true, false, none, some,
  Option, List, [], ◌∷◌, ◌++◌, Bytes, NulFree, codes, replicate, ◌-◌, ◌^◌, ◌==◌, if◌then◌else◌,
}
use libhelp.Proc.{Mem, memcpy, Str, env_size, Titles, ready, proc_init, written, proc_set_title}
use libhelp.Proc.Environ.{AreKept, AllStand, IsApart, SameOutside, proc_init-AllStand}
use libhelp.Proc.Layout.{AreAt}
use libhelp.Proc.Shown.{Fills, cut_title, proc_set_title-Fills}
use libhelp.Proc.Daemon.{
  Table, Process, File, other, Calls, in_child, Daemon, exits, ok, error, IsSilent, proc_daemonize,
  proc_daemonize-IsSilent, proc_pid_save,
}

-- `./d -x` with `A=1` and `B=22`
abbrev args : List Str
args = record { at = 1000; text = codes "./d" } ∷ record { at = 1004; text = codes "-x" } ∷ []

abbrev env : List Str
env = record { at = 1007; text = codes "A=1" } ∷ record { at = 1011; text = codes "B=22" } ∷ []

abbrev memory : ℕ → Option ℕ
memory n = some 5000

-- the bytes of a string that stands at an address, in front of others
abbrev put : Str → Mem → Mem
put s mem a =
    if leb s.at a && ltb a (s.at + length s.text) then get_or s.text (a - s.at) 0 else mem a

-- the two strings of `env`, and NULs
abbrev bytes_of_env : Mem
bytes_of_env =
    put (record { at = 1007; text = codes "A=1" })
      (put (record { at = 1011; text = codes "B=22" }) (λ a. 0))

abbrev titles : Titles
titles = record {
  argv = args;
  environ =
      record { at = 5000; text = codes "A=1" } ∷ record { at = 5004; text = codes "B=22" } ∷ [];
  last = 1015;
}

-- the bytes afterwards, with both strings in the new memory
abbrev bytes_after : Mem
bytes_after = memcpy (memcpy bytes_of_env 5000 1007 4) 5004 1011 5

started : proc_init memory bytes_of_env args env ≡ ready titles bytes_after
unfolding proc_init
started = refl

env-AllStand : AllStand bytes_of_env env
env-AllStand = (λ i less. ground (arith, less), (λ i less. ground (arith, less), tt))

env-IsApart : All (IsApart 5000 (env_size env)) env
unfolding env_size
env-IsApart = (inl (omega arith), (inl (omega arith), tt))

proc_init-AllStand_example :
    AreKept 5000 (5000 + env_size env) env titles.environ
    × AllStand bytes_after titles.environ
    × SameOutside 5000 (env_size env) bytes_of_env bytes_after
proc_init-AllStand_example =
    proc_init-AllStand memory bytes_of_env args env 5000 refl env-AllStand env-IsApart started

args-AreAt : AreAt 1000 args
args-AreAt = (refl, (refl, tt))

env-AreAt : AreAt (1000 + env_size args) env
unfolding env_size
env-AreAt = (refl, (refl, tt))

big : 1 < env_size args + env_size env
unfolding env_size
big = omega arith

small : 1000 + env_size args + env_size env < 2 ^ 64
unfolding env_size
small = omega arith

free : NulFree (codes "worker")
free = (refl, (refl, (refl, (refl, (refl, (refl, tt))))))

proc_set_title-Fills_example :
    (bytes : Bytes) × ((proc_set_title titles (codes "worker")).0 ≡ written bytes)
    × Fills
        (env_size args + env_size env - 1)
        (cut_title (env_size args + env_size env - 1) (codes "worker"))
        bytes
proc_set_title-Fills_example =
    proc_set_title-Fills memory bytes_of_env (record { at = 1000; text = codes "./d" })
      (record { at = 1004; text = codes "-x" } ∷ []) env 5000 (codes "worker") args-AreAt env-AreAt
      big small refl started free

shown : (proc_set_title titles (codes "worker")).0 ≡ written (codes "worker" ++ replicate 9 0)
unfolding proc_set_title
shown = refl

-- a title of 16 bytes, where 15 fit
cut : (proc_set_title titles (replicate 16 b'a')).0 ≡ written (replicate 14 b'a' ++ (0 ∷ []))
unfolding proc_set_title
cut = refl

abbrev calls : Calls
calls = record { fork = in_child; setsid = true; open_null = some 5; dup2 = λ n. true }

abbrev process : Process
process = record { table = λ n. some (other n); umask = 18; leader = false }

proc_daemonize-IsSilent_example :
    (t : Table) × (proc_daemonize calls process
      ≡ ok (record { table = t; umask = 0; leader = true }))
    × IsSilent process.table t 5
proc_daemonize-IsSilent_example =
    proc_daemonize-IsSilent calls process 5 refl refl refl refl refl refl (omega arith)

-- a process without a standard input, which `open` gives the null device: it is closed again
abbrev bare : Process
bare = record process { table = λ n. if n == 0 then none else some (other n) }

abbrev input_of : Daemon → Option File
input_of exits = none
input_of (ok s) = s.table 0
input_of (error s) = s.table 0

input_closed : input_of (proc_daemonize (record calls { open_null = some 0 }) bare) ≡ none
unfolding proc_daemonize
input_closed = refl

unsaved : proc_pid_save true false (codes "77") ≡ (false, some (codes "77"))
unfolding proc_pid_save
unsaved = refl
