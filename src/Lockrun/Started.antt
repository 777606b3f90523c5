-- ===== src/Lockrun/Started.antt =====
-- What holds whenever src/lockrun.c starts a command.
use libhelp.Base.{
  ℕ, ◌≡◌, refl, ap, ◌∙◌, true, false, Bool-cases, inl, inr, Option, none, some, Option-cases, List,
  [], ◌∷◌, ◌++◌, Bytes, codes, bytes_eq, bytes_eq_iff,
}
use libhelp.Lockrun.{
  Options, System, Ending, runs, Parsed, command, stops, Turn, sets, wants, shows, dies, cut, turn,
  follow, options, Locking, acquired, lock_loop, run_parsed, unlocked, launch, Fork, in_child,
  no_child, in_parent, defaults, main,
}
use libhelp.Lockrun.Wait.{Free, lock_loop-Free}

-- the arguments end in the mark and the command
abbrev Marked : List Bytes → List Bytes → Type 0
Marked argv cmd = (front : List Bytes) × (argv ≡ front ++ (codes "--" ∷ cmd))

behind : (a : Bytes) (argv cmd : List Bytes) → Marked argv cmd → Marked (a ∷ argv) cmd
behind a argv cmd (front, e) = (a ∷ front, ap (◌∷◌ a) e)

-- a command comes from what a turn leaves for the loop
follow-command :
    (P : Type 0) (t : Turn) (opt following : Option Bytes) (stay skip : Options → Parsed)
    (o : Options) (c : Bytes) (cs : List Bytes)
    → ((x : Options) → stay x ≡ command o (c ∷ cs) → P)
    → ((x : Options) → skip x ≡ command o (c ∷ cs) → P)
    → follow t opt following stay skip ≡ command o (c ∷ cs)
    → P
follow-command P (sets x) opt following stay skip o c cs here there e = here x e
follow-command P (wants set) (some v) following stay skip o c cs here there e = here (set v) e
follow-command P (wants set) none none stay skip o c cs here there e = absurd cc
follow-command P (wants set) none (some v) stay skip o c cs here there e = there (set v) e
follow-command P shows opt following stay skip o c cs here there e = absurd cc
follow-command P dies opt following stay skip o c cs here there e = absurd cc

no_command :
    {P : Type 0} {x o : Options} {c : Bytes} {cs : List Bytes}
    → command x [] ≡ command o (c ∷ cs)
    → P
no_command q = absurd cc

options-Marked :
    (sys : System) (argv : List Bytes) (o o' : Options) (c : Bytes) (cs : List Bytes)
    → options sys argv o ≡ command o' (c ∷ cs)
    → Marked argv (c ∷ cs)
unfolding options
options-Marked sys [] o o' c cs e = absurd cc
options-Marked sys (a ∷ []) o o' c cs e = elim (Bool-cases (bytes_eq a (codes "--"))) [
  | inl h ↦ let none_left : command o [] ≡ command o' (c ∷ cs) = rw h at e in no_command none_left
  | inr h ↦
      let last : Options → Parsed = λ x. command x [] in
      let never : (x : Options) → command x [] ≡ command o' (c ∷ cs) → Marked (a ∷ []) (c ∷ cs) =
        λ x q. no_command q in
      follow-command (Marked (a ∷ []) (c ∷ cs)) (turn sys (cut a).0 o) (cut a).1 none last last o' c
        cs never never (rw h at e)
]
options-Marked sys (a ∷ b ∷ rest) o o' c cs e = elim (Bool-cases (bytes_eq a (codes "--"))) [
  | inl h ↦
      let same : command o (b ∷ rest) ≡ command o' (c ∷ cs) = rw h at e in
      let left : b ∷ rest ≡ c ∷ cs = cc in
      (
        [],
        ap (λ x. x ∷ (b ∷ rest)) ((bytes_eq_iff a (codes "--")).0 h) ∙ ap (◌∷◌ (codes "--")) left,
      )
  | inr h ↦
      follow-command (Marked (a ∷ b ∷ rest) (c ∷ cs)) _ _ _ _ _ o' c cs
        (λ x q. behind a (b ∷ rest) (c ∷ cs) (options-Marked sys (b ∷ rest) x o' c cs q))
        (λ x q.
          behind a (b ∷ rest) (c ∷ cs)
            (behind b rest (c ∷ cs) (options-Marked sys rest x o' c cs q)))
        (rw h at e)
]

-- A command that starts: the arguments end in `--` and it, the lock file that the options name was
-- opened, and the lock was free at a try, before which all tries failed.
pub record Started (sys : System) (argv cmd : List Bytes) : Type 0 where
  pub front : List Bytes
  pub argv_is : argv ≡ front ++ (codes "--" ∷ cmd)
  pub o : Options
  pub parsed : options sys argv defaults ≡ command o cmd
  pub file : Bytes
  pub named : o.lockfile ≡ some file
  pub opened : sys.opens file ≡ true
  pub tries : ℕ
  pub free : Free sys 0 tries

launch-runs :
    (sys : System) (cmd cmd' : List Bytes) (f : Fork) → launch sys cmd f ≡ runs cmd' → cmd ≡ cmd'
launch-runs sys cmd cmd' no_child e = absurd cc
launch-runs sys cmd cmd' (in_child true) e = cc
launch-runs sys cmd cmd' (in_child false) e = absurd cc
launch-runs sys cmd cmd' (in_parent stored) e = absurd cc

unlocked-runs :
    (sys : System) (cmd cmd' : List Bytes) (r : Locking)
    → unlocked sys cmd r ≡ runs cmd'
    → (cmd ≡ cmd') × (t : ℕ) × (r ≡ acquired t)
unlocked-runs sys cmd cmd' (acquired t) e = (launch-runs sys cmd cmd' sys.fork e, t, refl)
unlocked-runs sys cmd cmd' (Locking.gives_up s n) e = absurd cc
unlocked-runs sys cmd cmd' Locking.undefined e = absurd cc
unlocked-runs sys cmd cmd' Locking.out_of_fuel e = absurd cc

run_parsed-Started :
    (fuel : ℕ) (sys : System) (argv cmd : List Bytes) (r : Parsed)
    → options sys argv defaults ≡ r
    → run_parsed fuel sys r ≡ runs cmd
    → Started sys argv cmd
run_parsed-Started fuel sys argv cmd (stops status) p e = absurd cc
run_parsed-Started fuel sys argv cmd (command o []) p e = absurd cc
run_parsed-Started fuel sys argv cmd (command o (c ∷ cs)) p e = elim (Option-cases o.lockfile) [
  | inl h ↦ let ended : Ending.exits 1 ≡ runs cmd = rw h at e in absurd cc
  | inr (file, h) ↦ elim (Bool-cases (sys.opens file)) [
    | inl found ↦
        let (same, t, at) =
          unlocked-runs sys (c ∷ cs) cmd (lock_loop fuel sys o 0) (rw found at (rw h at e)) in
        let (front, is) = options-Marked sys argv defaults o c cs p in
        record {
          front = front;
          argv_is = is ∙ ap (λ k. front ++ (codes "--" ∷ k)) same;
          o = o;
          parsed = p ∙ ap (command o) same;
          file = file;
          named = h;
          opened = found;
          tries = t;
          free = lock_loop-Free fuel sys o 0 t at;
        }
    | inr shut ↦ let ended : Ending.exits 1 ≡ runs cmd = rw shut at (rw h at e) in absurd cc
  ]
]

-- When `main` runs a command, the arguments end in `--` and this command, the lock file that the
-- options before it name was opened, and the lock was free at the try that ended the wait, while all
-- earlier tries had failed.
pub main-Started :
    (fuel : ℕ) (sys : System) (argv cmd : List Bytes)
    → main fuel sys argv ≡ runs cmd
    → Started sys argv cmd
unfolding main
main-Started fuel sys argv cmd e =
    run_parsed-Started fuel sys argv cmd (options sys argv defaults) refl e
