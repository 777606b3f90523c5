-- ===== src/Proc/Environ.antt =====
-- What `proc_init` of src/proc.c does with the environment, wherever its strings stand.
use libhelp.Base.{
  ◌<◌, ◌&&◌, ◌++◌, Bytes, All, leb, ltb, get_or, length, length-append, ℕ, ◌+◌, ◌-◌, ◌≤◌, ◌≡◌, ◌⊎◌,
  refl, ap, sym, ◌∙◌, subst, arith, true, false, Bool-cases, inl, inr, Option, some, List, [], ◌∷◌,
  ◌==◌,
}
use libhelp.Proc.{
  Mem, memcpy, Str, str_size, env_size, Titles, find_end, move_env, Init, ready, failed, undefined,
  layout, proc_init,
}

-- the same text, in its old place or in the memory from `p` up to `end`
abbrev pub IsKept : ℕ → ℕ → Str → Str → Type 0
IsKept p end old new =
    (new.text ≡ old.text) × ((new.at ≡ old.at) ⊎ ((p ≤ new.at) × (new.at + str_size new ≤ end)))

abbrev pub AreKept : ℕ → ℕ → List Str → List Str → Type 0
AreKept p end [] [] = Unit
AreKept p end [] (y ∷ ys) = ⊥
AreKept p end (x ∷ xs) [] = ⊥
AreKept p end (x ∷ xs) (y ∷ ys) = IsKept p end x y × AreKept p end xs ys

IsKept-le : (p q end : ℕ) (x y : Str) → p ≤ q → IsKept q end x y → IsKept p end x y
IsKept-le p q end x y h (t, inl same) = (t, inl same)
IsKept-le p q end x y h (t, inr (lo, hi)) = (t, inr (omega (arith, lo, h), hi))

AreKept-le : (p q end : ℕ) (xs ys : List Str) → p ≤ q → AreKept q end xs ys → AreKept p end xs ys
AreKept-le p q end [] [] h k = tt
AreKept-le p q end [] (y ∷ ys) h k = k
AreKept-le p q end (x ∷ xs) [] h k = k
AreKept-le p q end (x ∷ xs) (y ∷ ys) h (k, ks) =
    (IsKept-le p q end x y h k, AreKept-le p q end xs ys h ks)

-- bytes that stand at an address
abbrev pub StandsAt : Mem → ℕ → Bytes → Type 0
StandsAt mem a bytes = (i : ℕ) → i < length bytes → mem (a + i) ≡ get_or bytes i 0

-- The strings stand in memory, each with its NUL.
abbrev pub AllStand : Mem → List Str → Type 0
AllStand mem [] = Unit
AllStand mem (s ∷ rest) = StandsAt mem s.at (s.text ++ (0 ∷ [])) × AllStand mem rest

-- a string that has no byte of the memory from `p` on
abbrev pub IsApart : ℕ → ℕ → Str → Type 0
IsApart p size s = (s.at + str_size s ≤ p) ⊎ (p + size ≤ s.at)

-- the bytes outside of the memory from `p` on
abbrev pub SameOutside : ℕ → ℕ → Mem → Mem → Type 0
SameOutside p size mem mem' = (a : ℕ) → (a < p) ⊎ (p + size ≤ a) → mem' a ≡ mem a

size_text : (s : Str) → length (s.text ++ (0 ∷ [])) ≡ str_size s
size_text s = length-append s.text (0 ∷ [])

memcpy-SameOutside : (mem : Mem) (p q size : ℕ) → SameOutside p size mem (memcpy mem p q size)
memcpy-SameOutside mem p q size a (inl h) = ground (arith, h)
memcpy-SameOutside mem p q size a (inr h) = ground (arith, h)

-- a string where nothing is stored
StandsAt-apart :
    (mem mem' : Mem) (p size : ℕ) (s : Str)
    → SameOutside p size mem mem'
    → IsApart p size s
    → StandsAt mem s.at (s.text ++ (0 ∷ []))
    → StandsAt mem' s.at (s.text ++ (0 ∷ []))
StandsAt-apart mem mem' p size s same apart h i less =
    let bound = size_text s in
    same (s.at + i) (elim apart [
      | inl below ↦ inl (omega (arith, below, less, bound))
      | inr above ↦ inr (omega (arith, above))
    ])
    ∙ h i less

AllStand-apart :
    (mem mem' : Mem) (p size : ℕ) (xs : List Str)
    → SameOutside p size mem mem'
    → All (IsApart p size) xs
    → AllStand mem xs
    → AllStand mem' xs
AllStand-apart mem mem' p size [] same apart h = tt
AllStand-apart mem mem' p size (s ∷ xs) same apart h = (
  StandsAt-apart mem mem' p size s same apart.0 h.0,
  AllStand-apart mem mem' p size xs same apart.1 h.1,
)

-- a smaller piece of the memory
All-IsApart :
    (p size q k : ℕ) (xs : List Str)
    → p ≤ q
    → q + k ≤ p + size
    → All (IsApart p size) xs
    → All (IsApart q k) xs
All-IsApart p size q k [] h h' all = tt
All-IsApart p size q k (s ∷ xs) h h' (inl below, all) =
    (inl (omega (arith, h, below)), All-IsApart p size q k xs h h' all)
All-IsApart p size q k (s ∷ xs) h h' (inr above, all) =
    (inr (omega (arith, h', above)), All-IsApart p size q k xs h h' all)

memcpy-StandsAt :
    (mem : Mem) (p q : ℕ) (bytes : Bytes)
    → StandsAt mem q bytes
    → StandsAt (memcpy mem p q (length bytes)) p bytes
memcpy-StandsAt mem p q bytes h i less =
    let inside : (leb p (p + i) && ltb (p + i) (p + length bytes)) ≡ true = ground (arith, less) in
    let back : q + (p + i - p) ≡ q + i = omega arith in rw inside (ap mem back ∙ h i less)

abbrev Moved : ℕ → ℕ → Mem → List Str → List Str → Mem → Type 0
Moved p end mem env env' mem' = AreKept p end env env' × AllStand mem' env'

move_env-SameOutside :
    (mem : Mem) (last p : ℕ) (env : List Str)
    → SameOutside p (env_size env) mem (move_env mem last p env).2
unfolding move_env env_size
move_env-SameOutside mem last p [] a h = refl
move_env-SameOutside mem last p (s ∷ rest) a h = elim (Bool-cases (last == s.at)) [
  | inl hit ↦
      let size = str_size s in
      let mem1 = memcpy mem p s.at size in
      rw hit (
        move_env-SameOutside mem1 (s.at + size) (p + size) rest a (elim h [
          | inl below ↦ inl (omega (arith, below))
          | inr above ↦ inr (omega (arith, above))
        ])
        ∙ memcpy-SameOutside mem p s.at size a
            (elim h [ inl below ↦ inl below | inr above ↦ inr (omega (arith, above)) ]))
  | inr miss ↦ rw miss (
      move_env-SameOutside mem last p rest a
        (elim h [ inl below ↦ inl below | inr above ↦ inr (omega (arith, above)) ]))
]

-- a string that is copied, and one that is not
move_env-copies :
    (mem : Mem) (last p : ℕ) (s : Str) (rest : List Str)
    → (last == s.at) ≡ true
    → move_env mem last p (s ∷ rest) ≡ (
        let r =
          move_env (memcpy mem p s.at (str_size s)) (s.at + str_size s) (p + str_size s) rest in
        (record s { at = p } ∷ r.0, r.1, r.2))
unfolding move_env
move_env-copies mem last p s rest h = rw h refl

move_env-leaves :
    (mem : Mem) (last p : ℕ) (s : Str) (rest : List Str)
    → (last == s.at) ≡ false
    → move_env mem last p (s ∷ rest) ≡ (let r = move_env mem last p rest in (s ∷ r.0, r.1, r.2))
unfolding move_env
move_env-leaves mem last p s rest h = rw h refl

move_env-Moved :
    (mem : Mem) (last p end : ℕ) (env : List Str)
    → p + env_size env ≤ end
    → All (IsApart p (env_size env)) env
    → AllStand mem env
    → Moved p end mem env (move_env mem last p env).0 (move_env mem last p env).2
unfolding move_env env_size
move_env-Moved mem last p end [] h apart stand = (tt, tt)
move_env-Moved mem last p end (s ∷ rest) h apart stand = elim (Bool-cases (last == s.at)) [
  | inl hit ↦
      let size = str_size s in
      let next = p + size in
      let mem1 = memcpy mem p s.at size in
      let mem2 = (move_env mem1 (s.at + size) next rest).2 in
      let all = env_size (s ∷ rest) in
      let stand1 : AllStand mem1 rest =
        AllStand-apart mem mem1 p size rest (memcpy-SameOutside mem p s.at size)
          (All-IsApart p all p size rest (omega arith) (omega arith) apart.1) stand.1 in
      let (kept, further) =
        move_env-Moved mem1 (s.at + size) next end rest (omega (arith, h))
          (All-IsApart p all next (env_size rest) rest (omega arith) (omega arith) apart.1)
          stand1 in
      let copy : StandsAt mem1 p (s.text ++ (0 ∷ [])) =
        subst (λ n. StandsAt (memcpy mem p s.at n) p (s.text ++ (0 ∷ []))) (size_text s)
          (memcpy-StandsAt mem p s.at (s.text ++ (0 ∷ [])) stand.0) in
      let still : StandsAt mem2 p (s.text ++ (0 ∷ [])) =
        StandsAt-apart mem1 mem2 next (env_size rest) (record s { at = p })
          (move_env-SameOutside mem1 (s.at + size) next rest) (inl (omega arith)) copy in
      subst (λ r. Moved p end mem (s ∷ rest) r.0 r.2) (sym (move_env-copies mem last p s rest hit))
        (
          (
            (refl, inr (omega arith, omega (arith, h))),
            AreKept-le p next end rest _ (omega arith) kept,
          ),
          (still, further),
        )
  | inr miss ↦
      let (kept, further) =
        move_env-Moved mem last p end rest (omega (arith, h))
          (All-IsApart p (env_size (s ∷ rest)) p (env_size rest) rest (omega arith) (omega arith)
            apart.1)
          stand.1 in
      let there : IsApart p (env_size rest) s =
        (All-IsApart p (env_size (s ∷ rest)) p (env_size rest) (s ∷ []) (omega arith) (omega arith)
          (apart.0, tt)).0 in
      subst (λ r. Moved p end mem (s ∷ rest) r.0 r.2) (sym (move_env-leaves mem last p s rest miss))
        (
          ((refl, inl refl), kept),
          (
            StandsAt-apart mem _ p (env_size rest) s (move_env-SameOutside mem last p rest) there
                stand.0,
            further,
          ),
        )
]

abbrev InitMoved : ℕ → ℕ → Mem → List Str → Init → Type 0
InitMoved p size mem env (ready t mem') =
    AreKept p (p + size) env t.environ × AllStand mem' t.environ × SameOutside p size mem mem'
InitMoved p size mem env failed = Unit
InitMoved p size mem env undefined = Unit

-- When `proc_init` succeeds, in a process in whose memory the strings of the environment stand, and
-- `malloc` gives memory that is apart from them, `environ` has the same strings in the same order.
-- Each stands whole, with its NUL, in its old place or inside of the memory that was allocated, and
-- no byte outside of that memory changes.
pub proc_init-AllStand :
    (malloc : ℕ → Option ℕ) (mem : Mem) (argv environ : List Str) (p : ℕ) {t : Titles} {mem' : Mem}
    → malloc (env_size environ) ≡ some p
    → AllStand mem environ
    → All (IsApart p (env_size environ)) environ
    → proc_init malloc mem argv environ ≡ ready t mem'
    → AreKept p (p + env_size environ) environ t.environ
      × AllStand mem' t.environ
      × SameOutside p (env_size environ) mem mem'
unfolding proc_init
proc_init-AllStand malloc mem [] environ p {t} {mem'} room stand apart e =
    let never : undefined ≡ ready t mem' = rw (room, proc_init) at e in absurd (cc never)
proc_init-AllStand malloc mem (s ∷ rest) environ p {t} {mem'} room stand apart e =
    let made : layout mem (s ∷ rest) environ p ≡ ready t mem' = rw (room, proc_init) at e in
    let last = find_end s.at (s ∷ rest) in
    let moved =
      move_env-Moved mem last p (p + env_size environ) environ (omega arith) apart stand in
    subst (InitMoved p (env_size environ) mem environ) made
      (moved.0, moved.1, move_env-SameOutside mem last p environ)
