-- ===== src/Logger/Title.antt =====
-- `setproctitle_init` and `setproctitle` of src/logger.c. The loops are those of `proc_init` of
-- src/proc.c; the parameter `argv` of `setproctitle_init` hides the static variable.
use libhelp.Base.{
  ℕ, ◌-◌, ◌≡◌, ◌∙◌, refl, subst, Bool, true, false, Option, Option-elim, none, some, List, [], ◌∷◌,
  ◌++◌, Bytes, length, take, replicate, ltb, sub64, if◌then◌else◌,
}
use libhelp.Proc.{Mem, Str, env_size, find_end, move_env}

-- the static variables; `none` is `NULL`
pub record Statics : Type 0 where
  pub argv : Option (List Str)
  pub argv_last : ℕ

pub data Setup : Type 0 where
  -- with `environ` and the bytes of the process afterwards
  ready : Statics → List Str → Mem → Setup
  -- `malloc` fails
  failed : Statics → Setup
  -- no `argv[0]`
  undefined : Setup

-- the loops, with the memory for the environment
abbrev pub find_room : Mem → Statics → List Str → List Str → ℕ → Setup
find_room mem statics [] environ p = undefined
find_room mem statics (s ∷ rest) environ p =
    let (environ', last, mem') = move_env mem (find_end s.at (s ∷ rest)) p environ in
    ready (record statics { argv_last = last - 1 }) environ' mem'

unfoldable pub setproctitle_init :
    (malloc : ℕ → Option ℕ) → Mem → Statics → (argv environ : List Str) → Setup
unfolding find_end move_env
setproctitle_init malloc mem statics argv environ = elim (malloc (env_size environ)) [
  | none ↦ failed statics
  | some p ↦ find_room mem statics argv environ p
]

-- what `strncpy` stores, which is always `n` bytes
unfoldable pub strncpy : ℕ → Bytes → Bytes
strncpy n s = take n s ++ replicate (n - length s) 0

pub data Shown : Type 0 where
  -- the bytes from `argv[0]` up to `argv_last`, and whether it returns OK
  shown : Bool → Bytes → Shown
  -- `NULL` is used, or a place before `argv[0]`
  undefined : Shown

-- the bytes from `p` on, `k` of the room behind `argv[0]`; the last byte of the name is overwritten
unfoldable pub title_after : ℕ → ℕ → Bytes → Bytes → Shown
unfolding strncpy
title_after room k named title =
    if ltb room k then shown false named else shown true (take k named ++ strncpy (room - k) title)

-- with `argv[1] = NULL` too
unfoldable pub setproctitle : Statics → (title program_name : Bytes) → Shown × Statics
unfolding sub64 strncpy title_after
setproctitle statics title program_name = elim statics.argv [
  | none ↦ (undefined, statics)
  | some argv ↦ elim argv [
    | [] ↦ (undefined, statics)
    | s ∷ rest ↦
        let room = sub64 statics.argv_last s.at in
        let after = record statics { argv = some (s ∷ []) } in
        elim program_name [
          | [] ↦ (undefined, after)
          | c ∷ cs ↦ (title_after room (length cs) (strncpy room (c ∷ cs)) title, after)
        ]
  ]
]

abbrev KeepsArgv : Statics → Setup → Type 0
KeepsArgv old (ready new environ mem) = new.argv ≡ old.argv
KeepsArgv old (failed new) = new.argv ≡ old.argv
KeepsArgv old undefined = Unit

find_room-KeepsArgv :
    (mem : Mem) (statics : Statics) (argv environ : List Str) (p : ℕ)
    → KeepsArgv statics (find_room mem statics argv environ p)
find_room-KeepsArgv mem statics [] environ p = tt
find_room-KeepsArgv mem statics (s ∷ rest) environ p = refl

setproctitle_init-KeepsArgv :
    (malloc : ℕ → Option ℕ) (mem : Mem) (statics : Statics) (argv environ : List Str)
    → KeepsArgv statics (setproctitle_init malloc mem statics argv environ)
unfolding setproctitle_init
setproctitle_init-KeepsArgv malloc mem statics argv environ =
    Option-elim (KeepsArgv statics) (malloc (env_size environ)) _ _ refl
      (λ p. find_room-KeepsArgv mem statics argv environ p)

-- As long as nothing else stores `argv`, a `setproctitle_init` that succeeds leaves it `NULL`, and every
-- `setproctitle` after it uses that `NULL`.
pub setproctitle-setproctitle_init :
    (malloc : ℕ → Option ℕ) (mem : Mem) (statics : Statics) (argv environ : List Str)
    {after : Statics} {environ' : List Str} {mem' : Mem} (title program_name : Bytes)
    → statics.argv ≡ none
    → setproctitle_init malloc mem statics argv environ ≡ ready after environ' mem'
    → (after.argv ≡ none) × ((setproctitle after title program_name).0 ≡ Shown.undefined)
unfolding setproctitle
setproctitle-setproctitle_init malloc mem statics argv environ {after} title program_name null e =
    let kept : after.argv ≡ statics.argv =
      subst (KeepsArgv statics) e (setproctitle_init-KeepsArgv malloc mem statics argv environ) in
    let still : after.argv ≡ none = kept ∙ null in (still, rw (still, setproctitle) refl)
