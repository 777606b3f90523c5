-- ===== src/Lockrun/Settings.antt =====
-- The command lines that src/lockrun.c accepts: settings, the mark `--`, and the command.
use libhelp.Base.{
  ◌≡◌, refl, ◌+◌, true, some, List, [], ◌∷◌, ◌++◌, append_assoc, Bytes, codes, ap, sym, ◌∙◌,
}
use libhelp.Lockrun.{Options, System, command, options}

-- how a value is given: behind `=`, or as the next argument
pub data Form : Type 0 where
  joined : Form
  apart : Form

-- the short or the long name
pub data Name : Type 0 where
  short : Name
  long : Name

pub data Setting : Type 0 where
  lockfile : Name → Form → Bytes → Setting
  sleep : Name → Form → Bytes → Setting
  retries : Name → Form → Bytes → Setting
  maxtime : Name → Form → Bytes → Setting
  wait : Name → Setting
  verbose : Name → Setting
  quiet : Name → Setting

abbrev pick : Name → Bytes → Bytes → Bytes
pick short s l = s
pick long s l = l

abbrev give : Form → Bytes → Bytes → List Bytes
give joined name v = (name ++ (b'=' ∷ v)) ∷ []
give apart name v = name ∷ v ∷ []

-- the arguments of a setting
abbrev pub print : Setting → List Bytes
print (lockfile n f v) = give f (pick n (codes "-L") (codes "--lockfile")) v
print (sleep n f v) = give f (pick n (codes "-S") (codes "--sleep")) v
print (retries n f v) = give f (pick n (codes "-R") (codes "--retries")) v
print (maxtime n f v) = give f (pick n (codes "-T") (codes "--maxtime")) v
print (wait n) = pick n (codes "-W") (codes "--wait") ∷ []
print (verbose n) = pick n (codes "-V") (codes "--verbose") ∷ []
print (quiet n) = pick n (codes "-q") (codes "--quiet") ∷ []

abbrev pub print_all : List Setting → List Bytes
print_all [] = []
print_all (x ∷ xs) = print x ++ print_all xs

-- what a setting means
abbrev pub apply : System → Setting → Options → Options
apply sys (lockfile n f v) o = record o { lockfile = some v }
apply sys (sleep n f v) o = record o { sleeptime = sys.atoi v }
apply sys (retries n f v) o = record o { retries = sys.atoi v }
apply sys (maxtime n f v) o = record o { maxtime = sys.atoi v }
apply sys (wait n) o = record o { wait_for_lock = true }
apply sys (verbose n) o = record o { verbose = o.verbose + 1 }
apply sys (quiet n) o = record o { quiet = true }

-- the settings in order: the last one counts
abbrev pub apply_all : System → List Setting → Options → Options
apply_all sys [] o = o
apply_all sys (x ∷ xs) o = apply_all sys xs (apply sys x o)

-- one setting before an argument list that is not empty
options-print :
    (sys : System) (x : Setting) (a : Bytes) (rest : List Bytes) (o : Options)
    → options sys (print x ++ (a ∷ rest)) o ≡ options sys (a ∷ rest) (apply sys x o)
unfolding options
options-print sys (lockfile short joined v) a rest o = refl
options-print sys (lockfile long joined v) a rest o = refl
options-print sys (lockfile short apart v) a rest o = refl
options-print sys (lockfile long apart v) a rest o = refl
options-print sys (sleep short joined v) a rest o = refl
options-print sys (sleep long joined v) a rest o = refl
options-print sys (sleep short apart v) a rest o = refl
options-print sys (sleep long apart v) a rest o = refl
options-print sys (retries short joined v) a rest o = refl
options-print sys (retries long joined v) a rest o = refl
options-print sys (retries short apart v) a rest o = refl
options-print sys (retries long apart v) a rest o = refl
options-print sys (maxtime short joined v) a rest o = refl
options-print sys (maxtime long joined v) a rest o = refl
options-print sys (maxtime short apart v) a rest o = refl
options-print sys (maxtime long apart v) a rest o = refl
options-print sys (wait short) a rest o = refl
options-print sys (wait long) a rest o = refl
options-print sys (verbose short) a rest o = refl
options-print sys (verbose long) a rest o = refl
options-print sys (quiet short) a rest o = refl
options-print sys (quiet long) a rest o = refl

abbrev pub marked : List Setting → List Bytes → List Bytes
marked xs cmd = print_all xs ++ (codes "--" ∷ cmd)

some_print :
    (x : Setting) (rest : List Bytes)
    → (a : Bytes) × (more : List Bytes) × (print x ++ rest ≡ a ∷ more)
some_print (lockfile n joined v) rest = (_, _, refl)
some_print (lockfile n apart v) rest = (_, _, refl)
some_print (sleep n joined v) rest = (_, _, refl)
some_print (sleep n apart v) rest = (_, _, refl)
some_print (retries n joined v) rest = (_, _, refl)
some_print (retries n apart v) rest = (_, _, refl)
some_print (maxtime n joined v) rest = (_, _, refl)
some_print (maxtime n apart v) rest = (_, _, refl)
some_print (wait n) rest = (_, _, refl)
some_print (verbose n) rest = (_, _, refl)
some_print (quiet n) rest = (_, _, refl)

some_marked :
    (xs : List Setting) (cmd : List Bytes)
    → (a : Bytes) × (more : List Bytes) × (marked xs cmd ≡ a ∷ more)
some_marked [] cmd = (_, _, refl)
some_marked (x ∷ xs) cmd = rw append_assoc (some_print x (marked xs cmd))

-- Settings, each with its short or long name and its value behind `=` or in the next argument,
-- then `--` and a command: the loop over the arguments makes the settings in order and leaves the command.
pub options-print_all :
    (sys : System) (xs : List Setting) (cmd : List Bytes) (o : Options)
    → options sys (print_all xs ++ (codes "--" ∷ cmd)) o ≡ command (apply_all sys xs o) cmd
unfolding options
options-print_all sys [] [] o = refl
options-print_all sys [] (c ∷ cs) o = refl
options-print_all sys (x ∷ xs) cmd o =
    let (a, more, e) = some_marked xs cmd in
    ap (λ r. options sys r o) (append_assoc (print x) (print_all xs) (codes "--" ∷ cmd))
    ∙ ap (λ r. options sys (print x ++ r) o) e
    ∙ options-print sys x a more o
    ∙ ap (λ r. options sys r (apply sys x o)) (sym e)
    ∙ options-print_all sys xs cmd (apply sys x o)
