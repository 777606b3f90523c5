-- ===== src/Proc/Daemon.antt =====
-- `proc_daemonize`, `proc_pid_save` and `proc_pid_delete` of src/proc.c, over what the system calls
-- return.
use libhelp.Base.{
  ℕ, ◌≡◌, ◌<◌, ◌⊎◌, refl, ap, ◌∙◌, arith, Bool, true, false, not, inl, inr, Option, none, some,
  Bytes, ◌==◌, ==_iff, if◌then◌else◌,
}

-- what a descriptor is open on
pub data File : Type 0 where
  null_device : File
  other : ℕ → File

-- the descriptors; `none` is closed
abbrev pub Table : Type 0
Table = ℕ → Option File

abbrev pub assign : Table → ℕ → Option File → Table
assign t fd file n = if n == fd then file else t n

-- what the calls change of a process
pub record Process : Type 0 where
  pub table : Table
  pub umask : ℕ
  -- whether it leads a session
  pub leader : Bool

-- `fork` returns -1, to the parent, or to the child
pub data Fork : Type 0 where
  no_child : Fork
  in_parent : Fork
  in_child : Fork

pub record Calls : Type 0 where
  pub fork : Fork
  pub setsid : Bool
  -- `open("/dev/null", O_RDWR)`
  pub open_null : Option ℕ
  -- whether `dup2` onto a descriptor succeeds
  pub dup2 : ℕ → Bool

pub data Daemon : Type 0 where
  -- `exit(0)` of the parent
  exits : Daemon
  ok : Process → Daemon
  error : Process → Daemon

abbrev pub set_file : Process → ℕ → Option File → Process
set_file s fd file = record s { table = assign s.table fd file }

-- `dup2(fd, n)` and its test
abbrev pub redirect : Calls → Process → ℕ → ℕ → (Process → Daemon) → Daemon
redirect calls s fd n next =
    if not (calls.dup2 n) then error s else next (set_file s n (s.table fd))

-- behind `open`
abbrev pub redirect_all : Calls → Process → ℕ → Daemon
redirect_all calls s fd =
    redirect calls s fd 0
      (λ s0. redirect calls s0 fd 1 (λ s1. redirect calls s1 fd 2 (λ s2. ok (set_file s2 fd none))))

abbrev pub open_device : Calls → Process → Option ℕ → Daemon
open_device calls s none = error s
open_device calls s (some fd) = redirect_all calls (set_file s fd (some null_device)) fd

-- behind `fork`
abbrev pub in_new_process : Calls → Process → Fork → Daemon
in_new_process calls s no_child = error s
in_new_process calls s in_parent = exits
in_new_process calls s in_child =
    if not calls.setsid
    then error s
    else open_device calls (record s { leader = true; umask = 0 }) calls.open_null

unfoldable pub proc_daemonize : Calls → Process → Daemon
proc_daemonize calls s = in_new_process calls s calls.fork

-- what `proc_pid_save` returns, and the bytes given to `fprintf`, if the file was opened
unfoldable pub proc_pid_save : (opens closes : Bool) → Bytes → Bool × Option Bytes
proc_pid_save opens closes pid =
    if not opens then (false, none) else if not closes then (false, some pid) else (true, some pid)

-- for the result of `unlink`
unfoldable pub proc_pid_delete : ℕ → Bool
proc_pid_delete result = if not (result == 0) then false else true

-- The three standard descriptors are open on the null device, and the others are as they were.
pub record IsSilent (t t' : Table) (fd : ℕ) : Type 0 where
  pub input : t' 0 ≡ some null_device
  pub output : t' 1 ≡ some null_device
  pub errors : t' 2 ≡ some null_device
  pub fd_closed : t' fd ≡ none
  pub others : (n : ℕ) → 2 < n → (n == fd) ≡ false → t' n ≡ t n

-- the descriptors behind the calls of the child
abbrev silenced : Table → ℕ → Table
silenced t fd =
    let a = assign t fd (some null_device) in
    let t0 = assign a 0 (a fd) in
    let t1 = assign t0 1 (t0 fd) in let t2 = assign t1 2 (t1 fd) in assign t2 fd none

equal : (n : ℕ) → (n == n) ≡ true
equal n = (==_iff n n).1 refl

differ : (n m : ℕ) → (n < m) ⊎ (m < n) → (n == m) ≡ false
differ n m (inl h) = ground (arith, h)
differ n m (inr h) = ground (arith, h)

silenced-IsSilent : (t : Table) (fd : ℕ) → 2 < fd → IsSilent t (silenced t fd) fd
silenced-IsSilent t fd above =
    let own = equal fd in
    let fd0 = differ fd 0 (inr (omega (arith, above))) in
    let fd1 = differ fd 1 (inr (omega (arith, above))) in
    let at0 = differ 0 fd (inl (omega (arith, above))) in
    let at1 = differ 1 fd (inl (omega (arith, above))) in
    let at2 = differ 2 fd (inl above) in
    record {
      input = rw (at0, own) refl;
      output = rw (at1, fd0, own) refl;
      errors = rw (at2, fd1, fd0, own) refl;
      fd_closed = rw own refl;
      others = λ n h other.
          rw
            (
              other,
              differ n 2 (inr h),
              differ n 1 (inr (omega (arith, h))),
              differ n 0 (inr (omega (arith, h))),
            )
            refl;
    }

-- When `open` gives a descriptor above 2 and every call of the child succeeds, `proc_daemonize` returns
-- OK in a process that leads a session and has the umask 0, with the standard descriptors on the
-- null device, the descriptor of `open` closed, and all others as they were.
pub proc_daemonize-IsSilent :
    (calls : Calls) (s : Process) (fd : ℕ)
    → calls.fork ≡ in_child
    → calls.setsid ≡ true
    → calls.open_null ≡ some fd
    → calls.dup2 0 ≡ true
    → calls.dup2 1 ≡ true
    → calls.dup2 2 ≡ true
    → 2 < fd
    → (t : Table) × (proc_daemonize calls s ≡ ok (record { table = t; umask = 0; leader = true }))
      × IsSilent s.table t fd
unfolding proc_daemonize
proc_daemonize-IsSilent calls s fd f l o d0 d1 d2 above = (
  silenced s.table fd,
  ap (in_new_process calls s) f
      ∙ rw l refl
      ∙ ap (open_device calls (record s { leader = true; umask = 0 })) o
      ∙ rw d0 (rw d1 (rw d2 refl)),
  silenced-IsSilent s.table fd above,
)
