-- ===== src/Proc/Layout.antt =====
-- Where `proc_init` of src/proc.c puts an environment that stands behind the arguments.
use libhelp.Base.{
  ℕ, ◌+◌, ◌-◌, ◌≡◌, refl, ap, sym, ◌∙◌, subst, arith, true, Option, some, List, [], ◌∷◌, ◌==◌,
  ==_iff,
}
use libhelp.Proc.{Mem, memcpy, Str, str_size, env_size, find_end, move_env, ready, proc_init}

-- strings that stand behind one another from an address on
abbrev pub AreAt : ℕ → List Str → Type 0
AreAt a [] = Unit
AreAt a (s ∷ rest) = (s.at ≡ a) × AreAt (a + str_size s) rest

-- the strings, behind one another
unfoldable pub placed : ℕ → List Str → List Str
placed a [] = []
placed a (s ∷ rest) = record s { at = a } ∷ placed (a + str_size s) rest

find_end-AreAt : (a : ℕ) (xs : List Str) → AreAt a xs → find_end a xs ≡ a + env_size xs
unfolding find_end env_size
find_end-AreAt a [] h = omega arith
find_end-AreAt a (s ∷ rest) (e, h) =
    let hit : (a == s.at) ≡ true = (==_iff a s.at).1 (sym e) in
    rw hit (rw e (find_end-AreAt (a + str_size s) rest h ∙ omega arith))

move_env-AreAt :
    (mem : Mem) (a p : ℕ) (xs : List Str)
    → AreAt a xs
    → ((move_env mem a p xs).0 ≡ placed p xs) × ((move_env mem a p xs).1 ≡ a + env_size xs)
unfolding move_env env_size placed
move_env-AreAt mem a p [] h = let z : a ≡ a + 0 = omega arith in (refl, z)
move_env-AreAt mem a p (s ∷ rest) (e, h) =
    let hit : (a == s.at) ≡ true = (==_iff a s.at).1 (sym e) in
    let size = str_size s in
    let (strings, last) =
      move_env-AreAt (memcpy mem p s.at size) (s.at + size) (p + size) rest
        (subst (λ x. AreAt (x + size) rest) (sym e) h) in
    rw hit (ap (◌∷◌ (record s { at = p })) strings, last ∙ omega (arith, e))

-- When the arguments and the environment stand behind one another, `proc_init` puts copies of the
-- environment behind one another into the memory that it allocates, and `proc_last` is the address of
-- the last byte of the original.
pub proc_init-AreAt :
    (malloc : ℕ → Option ℕ) (mem : Mem) (s : Str) (rest environ : List Str) (p : ℕ)
    → AreAt s.at (s ∷ rest)
    → AreAt (s.at + env_size (s ∷ rest)) environ
    → malloc (env_size environ) ≡ some p
    → (mem' : Mem) × (proc_init malloc mem (s ∷ rest) environ
        ≡ ready
            (record {
              argv = s ∷ rest;
              environ = placed p environ;
              last = s.at + env_size (s ∷ rest) + env_size environ - 1;
            })
            mem')
unfolding proc_init
proc_init-AreAt malloc mem s rest environ p args env room =
    let ends = find_end-AreAt s.at (s ∷ rest) args in
    let a = s.at + env_size (s ∷ rest) in
    let (strings, last) = move_env-AreAt mem a p environ env in
    let mem' = (move_env mem a p environ).2 in
    (
      mem',
      rw (room, proc_init)
          (rw ends (
            ap
              (λ x.
                ready
                  (record { argv = s ∷ rest; environ = x; last = (move_env mem a p environ).1 - 1 })
                  mem')
              strings
            ∙ ap
                (λ x.
                  ready (record { argv = s ∷ rest; environ = placed p environ; last = x - 1 }) mem')
                last)),
    )
