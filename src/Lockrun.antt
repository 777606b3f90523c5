-- ===== src/Lockrun.antt =====
-- src/lockrun.c: the command line, the wait for the lock, and the exit status. What is printed is
-- left out. The operating system is the parameter `System`.
pub mod Settings
pub mod Wait
pub mod Started
mod Tests
use libhelp.Base.{
  ℕ, zero, suc, ◌+◌, ◌^◌, Bool, true, false, not, ◌&&◌, ◌||◌, Option, none, some, List, [], ◌∷◌,
  Bytes, codes, bytes_eq, leb, ltb, ◌==◌, if◌then◌else◌, ℤ, pos, negsuc,
}

-- the static variables
pub record Options : Type 0 where
  pub lockfile : Option Bytes
  pub wait_for_lock : Bool
  pub sleeptime : ℤ
  pub retries : ℤ
  pub verbose : ℕ
  pub maxtime : ℤ
  pub quiet : Bool

-- their first values
abbrev pub defaults : Options
defaults = record {
  lockfile = none;
  wait_for_lock = false;
  sleeptime = pos 10;
  retries = pos 0;
  verbose = 0;
  maxtime = pos 0;
  quiet = false;
}

-- `fork`: -1, 0 with whether `execvp` starts the command, or the child's id with what `waitpid`
-- stored, if it did
pub data Fork : Type 0 where
  no_child : Fork
  in_child : Bool → Fork
  in_parent : Option ℕ → Fork

-- the C library and the operating system
pub record System : Type 0 where
  pub atoi : Bytes → ℤ
  -- whether the file is opened or created
  pub opens : Bytes → Bool
  -- whether try `n` to lock the file fails
  pub locked : ℕ → Bool
  pub fork : Fork
  -- `WIFEXITED` and `WEXITSTATUS`
  pub exit_status : ℕ → Option ℕ

-- What an argument does: it sets something, needs a value to set something, or ends the program with
-- or without success.
pub data Turn : Type 0 where
  sets : Options → Turn
  wants : (Bytes → Options) → Turn
  shows : Turn
  dies : Turn

-- `opt = strchr(arg, '=')`, and the cut there
unfoldable pub cut : Bytes → Bytes × Option Bytes
cut [] = ([], none)
cut (c ∷ s) = let (name, opt) = cut s in if c == b'=' then ([], some s) else (c ∷ name, opt)

abbrev pub either : Bytes → Bytes → Bytes → Bool
either arg short long = bytes_eq arg short || bytes_eq arg long

-- the chain of `STRMATCH`
unfoldable pub turn : System → Bytes → Options → Turn
unfolding bytes_eq
turn sys arg o =
    if bytes_eq arg (codes "--version")
    then shows
    else if bytes_eq arg (codes "--help")
    then shows
    else if either arg (codes "-L") (codes "--lockfile")
    then wants (λ v. record o { lockfile = some v })
    else if either arg (codes "-W") (codes "--wait")
    then sets (record o { wait_for_lock = true })
    else if either arg (codes "-S") (codes "--sleep")
    then wants (λ v. record o { sleeptime = sys.atoi v })
    else if either arg (codes "-R") (codes "--retries")
    then wants (λ v. record o { retries = sys.atoi v })
    else if either arg (codes "-T") (codes "--maxtime")
    then wants (λ v. record o { maxtime = sys.atoi v })
    else if either arg (codes "-V") (codes "--verbose")
    then sets (record o { verbose = o.verbose + 1 })
    else if either arg (codes "-q") (codes "--quiet")
    then sets (record o { quiet = true })
    else dies

-- the end of the program
pub data Ending : Type 0 where
  -- `exit`
  exits : ℕ → Ending
  -- the child runs the command
  runs : List Bytes → Ending
  undefined : Ending
  out_of_fuel : Ending

pub data Parsed : Type 0 where
  -- the options, and what is left of `argv`
  command : Options → List Bytes → Parsed
  stops : ℕ → Parsed

-- `getarg` and the assignment: the value behind the `=`, or the next argument
abbrev pub getarg :
    Option Bytes
    → (Bytes → Options)
    → Parsed
    → (Options → Parsed)
    → (Options → Parsed)
    → Option Bytes
    → Parsed
getarg (some v) set missing stay skip following = stay (set v)
getarg none set missing stay skip none = missing
getarg none set missing stay skip (some v) = skip (set v)

-- what a turn leaves for the loop: `stay` goes on with the next argument, `skip` with the one behind
abbrev pub follow : Turn → Option Bytes → Option Bytes → (stay skip : Options → Parsed) → Parsed
follow (sets o) opt following stay skip = stay o
follow (wants set) opt following stay skip = getarg opt set (stops 1) stay skip following
follow shows opt following stay skip = stops 0
follow dies opt following stay skip = stops 1

-- the loop over the arguments
unfoldable pub options : System → List Bytes → Options → Parsed
unfolding cut turn bytes_eq
options sys [] o = command o []
options sys (a ∷ []) o =
    let (arg, opt) = cut a in
    if bytes_eq a (codes "--")
    then command o []
    else follow (turn sys arg o) opt none (λ o'. command o' []) (λ o'. command o' [])
options sys (a ∷ b ∷ rest) o =
    let (arg, opt) = cut a in
    let next : Options → Parsed = λ o'. options sys (b ∷ rest) o' in
    let beyond : Options → Parsed = λ o'. options sys rest o' in
    if bytes_eq a (codes "--")
    then command o (b ∷ rest)
    else follow (turn sys arg o) opt (some b) next beyond

pub data Locking : Type 0 where
  -- the number of tries that failed before
  acquired : ℕ → Locking
  -- the run is locked: the exit status and the tries
  gives_up : ℕ → ℕ → Locking
  -- `attempts` overflows
  undefined : Locking
  out_of_fuel : Locking

-- `retries > 0 && attempts >= retries`
abbrev pub enough_tries : ℤ → ℕ → Bool
enough_tries (pos n) attempts = ltb 0 n && leb n attempts
enough_tries (negsuc n) attempts = false

-- the loop that waits for the lock; `fuel` bounds the tries
unfoldable pub lock_loop : ℕ → System → Options → ℕ → Locking
lock_loop zero sys o attempts = out_of_fuel
lock_loop (suc fuel) sys o attempts =
    let again = lock_loop fuel sys o (attempts + 1) in
    if not (sys.locked attempts)
    then acquired attempts
    else if leb (2 ^ 31) (attempts + 1)
    then Locking.undefined
    else if not o.wait_for_lock
    then gives_up (if o.quiet then 0 else 1) (attempts + 1)
    else if enough_tries o.retries (attempts + 1)
    then gives_up 1 (attempts + 1)
    else again

-- the exit status of the parent
abbrev pub reflect : System → Option ℕ → ℕ
reflect sys stored =
    let status : ℕ = elim stored [ none ↦ 0 | some s ↦ s ] in
    elim (sys.exit_status status) [ none ↦ 1 | some rc ↦ rc ]

-- behind the lock; when `execvp` returns, `rc` is read before it has a value
abbrev pub launch : System → List Bytes → Fork → Ending
launch sys cmd no_child = exits 1
launch sys cmd (in_child true) = runs cmd
launch sys cmd (in_child false) = Ending.undefined
launch sys cmd (in_parent stored) = exits (reflect sys stored)

abbrev pub unlocked : System → List Bytes → Locking → Ending
unlocked sys cmd (acquired n) = launch sys cmd sys.fork
unlocked sys cmd (gives_up status n) = exits status
unlocked sys cmd Locking.undefined = Ending.undefined
unlocked sys cmd Locking.out_of_fuel = Ending.out_of_fuel

-- the checks behind the loop over the arguments, and the rest
abbrev pub run_parsed : ℕ → System → Parsed → Ending
run_parsed fuel sys (stops status) = exits status
run_parsed fuel sys (command o []) = exits 1
run_parsed fuel sys (command o (c ∷ cs)) = elim o.lockfile [
  | none ↦ exits 1
  | some file ↦
      if not (sys.opens file) then exits 1 else unlocked sys (c ∷ cs) (lock_loop fuel sys o 0)
]

-- `main`, for the arguments behind the name of the program
unfoldable pub main : ℕ → System → List Bytes → Ending
unfolding options lock_loop
main fuel sys argv = run_parsed fuel sys (options sys argv defaults)
