-- ===== src/Proc.antt =====
-- src/proc.c: the title of a process, and the daemon. Strings stand at addresses; the title is written
-- over the arguments and the environment that stand behind one another.
pub mod Environ
pub mod Layout
pub mod Shown
pub mod Daemon
mod Tests
use libhelp.Base.{
  ℕ, zero, suc, ◌+◌, ◌-◌, ◌%◌, ◌^◌, Bool, true, false, not, Option, none, some, List, [], ◌∷◌, ◌++◌,
  Bytes, ltb, leb, ◌&&◌, ◌==◌, length, take, replicate, if◌then◌else◌, sub64,
}

-- a C string and where it stands
pub record Str : Type 0 where
  pub at : ℕ
  pub text : Bytes

-- `strlen(s) + 1`
abbrev pub str_size : Str → ℕ
str_size s = length s.text + 1

-- the loop that sums the sizes of `environ`
unfoldable pub env_size : List Str → ℕ
env_size [] = 0
env_size (s ∷ rest) = str_size s + env_size rest

-- `argv`, `environ`, and the static variables; `last` is `proc_last`
pub record Titles : Type 0 where
  pub argv : List Str
  pub environ : List Str
  pub last : ℕ

-- the loop over `argv`, from a value of `proc_last`
unfoldable pub find_end : ℕ → List Str → ℕ
find_end last [] = last
find_end last (s ∷ rest) = find_end (if last == s.at then s.at + str_size s else last) rest

-- the bytes of the process
abbrev pub Mem : Type 0
Mem = ℕ → ℕ

-- `memcpy(p, q, size)`
abbrev pub memcpy : Mem → (p q size : ℕ) → Mem
memcpy mem p q size a = if leb p a && ltb a (p + size) then mem (q + (a - p)) else mem a

-- The loop over `environ`, from values of `proc_last` and `p`: the strings that follow are copied to `p`.
-- The sizes are those of the strings as they stood before the loop.
unfoldable pub move_env : Mem → ℕ → ℕ → List Str → List Str × ℕ × Mem
move_env mem last p [] = ([], last, mem)
move_env mem last p (s ∷ rest) =
    let hit = last == s.at in
    let size = str_size s in
    let (rest', last', mem') =
      move_env (if hit then memcpy mem p s.at size else mem) (if hit then s.at + size else last)
        (if hit then p + size else p) rest in
    ((if hit then record s { at = p } else s) ∷ rest', last', mem')

pub data Init : Type 0 where
  -- with the bytes of the process afterwards
  ready : Titles → Mem → Init
  -- `malloc` fails
  failed : Init
  -- no `argv[0]`
  undefined : Init

-- the loops of `proc_init`, with the memory for the environment
abbrev pub layout : Mem → List Str → List Str → ℕ → Init
layout mem [] environ p = undefined
layout mem (s ∷ rest) environ p =
    let (environ', last, mem') = move_env mem (find_end s.at (s ∷ rest)) p environ in
    ready (record { argv = s ∷ rest; environ = environ'; last = last - 1 }) mem'

unfoldable pub proc_init : (malloc : ℕ → Option ℕ) → Mem → List Str → List Str → Init
unfolding env_size find_end move_env
proc_init malloc mem argv environ = elim (malloc (env_size environ)) [
  | none ↦ failed
  | some p ↦ layout mem argv environ p
]

pub data Title : Type 0 where
  -- the bytes from `proc_argv[0]` up to `proc_last`, without the one there
  written : Bytes → Title
  -- a copy of more bytes than the title has
  overrun : Title

-- the bytes that a title leaves in `room` bytes
unfoldable pub title_bytes : ℕ → Bytes → Title
unfolding sub64
title_bytes room title =
    let size = if ltb room (length title) then sub64 room 1 else length title in
    if ltb (length title) size
    then overrun
    else written (take size title ++ replicate (sub64 room size) 0)

-- `proc_argv[1] = NULL` too
unfoldable pub proc_set_title : Titles → Bytes → Title × Titles
unfolding title_bytes
proc_set_title t title = elim t.argv [
  | [] ↦ (overrun, t)
  | s ∷ rest ↦ (title_bytes (sub64 t.last s.at) title, record t { argv = s ∷ [] })
]
