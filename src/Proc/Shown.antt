-- ===== src/Proc/Shown.antt =====
-- The title that `proc_set_title` of src/proc.c leaves.
use libhelp.Base.{
  ℕ, zero, suc, ◌+◌, ◌-◌, ◌≤◌, ◌<◌, ◌≡◌, refl, ap, sym, ◌∙◌, arith, false, Bool-cases, inl, inr,
  Option, some, List, [], ◌∷◌, ◌++◌, append_assoc, Bytes, NulFree, c_string, c_string_stop, ltb,
  ltb→lt, le→ltb, length, length-append, take, take-length-le, replicate, if◌then◌else◌, word,
  sub64,
}
use libhelp.Proc.{
  Mem, Str, env_size, Titles, ready, proc_init, written, title_bytes, proc_set_title,
}
use libhelp.Proc.Layout.{AreAt, placed, proc_init-AreAt}

length-replicate : (n a : ℕ) → length (replicate n a) ≡ n
length-replicate zero a = refl
length-replicate (suc n) a = ap suc (length-replicate n a)

length-take : (n : ℕ) (xs : Bytes) → n ≤ length xs → length (take n xs) ≡ n
length-take zero xs h = refl
length-take (suc n) [] h = absurd (omega (arith, h))
length-take (suc n) (x ∷ xs) h = ap suc (length-take n xs (omega (arith, h)))

take-NulFree : (n : ℕ) (xs : Bytes) → NulFree xs → NulFree (take n xs)
take-NulFree zero xs h = tt
take-NulFree (suc n) [] h = tt
take-NulFree (suc n) (x ∷ xs) h = (h.0, take-NulFree n xs h.1)

sub64-le : (a b : ℕ) → b ≤ a → a < word → sub64 a b ≡ a - b
unfolding sub64
sub64-le a b h k = omega arith

zeros_stop : (s : Bytes) (k : ℕ) → NulFree s → c_string (s ++ (replicate k 0 ++ (0 ∷ []))) ≡ s
zeros_stop s zero h = c_string_stop s [] h
zeros_stop s (suc k) h = c_string_stop s (replicate k 0 ++ (0 ∷ [])) h

-- Bytes that fill a room and read as a text, with the NUL behind the room.
pub record Fills (room : ℕ) (text bytes : Bytes) : Type 0 where
  pub size : length bytes ≡ room
  pub reads : c_string (bytes ++ (0 ∷ [])) ≡ text

-- the title, or what fits of it before a NUL
abbrev pub cut_title : ℕ → Bytes → Bytes
cut_title room title = if ltb room (length title) then take (room - 1) title else title

filled :
    (room n : ℕ) (s : Bytes)
    → NulFree s
    → length s ≡ n
    → n ≤ room
    → Fills room s (s ++ replicate (room - n) 0)
filled room n s free e fits = record {
  size =
      omega
        (arith, length-append s (replicate (room - n) 0), length-replicate (room - n) 0, e, fits);
  reads =
      ap c_string (append_assoc s (replicate (room - n) 0) (0 ∷ [])) ∙ zeros_stop s (room - n) free;
}

title_bytes-Fills :
    (room : ℕ) (title : Bytes)
    → 0 < room
    → room < word
    → NulFree title
    → (bytes : Bytes) × (title_bytes room title ≡ written bytes)
      × Fills room (cut_title room title) bytes
unfolding title_bytes
title_bytes-Fills room title some_room small free = elim (Bool-cases (ltb room (length title))) [
  | inl h ↦
      let longer = ltb→lt room (length title) h in
      let less : sub64 room 1 ≡ room - 1 = sub64-le room 1 (omega arith) small in
      let rest : sub64 room (room - 1) ≡ room - (room - 1) =
        sub64-le room (room - 1) (omega arith) small in
      let here : ltb (length title) (room - 1) ≡ false =
        le→ltb (length title) (room - 1) (omega (arith, longer)) in
      (
        take (room - 1) title ++ replicate (room - (room - 1)) 0,
        rw h (rw less (rw here (rw rest refl))),
        rw h (
            filled room (room - 1) (take (room - 1) title) (take-NulFree (room - 1) title free)
              (length-take (room - 1) title (omega (arith, longer))) (omega arith)),
      )
  | inr h ↦
      let fits : length title ≤ room = ground (arith, h) in
      let rest : sub64 room (length title) ≡ room - length title =
        sub64-le room (length title) fits small in
      let here : ltb (length title) (length title) ≡ false =
        le→ltb (length title) (length title) (omega arith) in
      (
        title ++ replicate (room - length title) 0,
        rw h (
            rw here (
              rw rest (
                ap (λ b. written (b ++ replicate (room - length title) 0))
                  (take-length-le (length title) title (omega arith))))),
        rw h (filled room (length title) title free refl fits),
      )
]

eq_of_ready : {t u : Titles} {n k : Mem} → ready t n ≡ ready u k → t ≡ u
eq_of_ready e = cc

-- What a process shows after `proc_init`, when the arguments and the environment stand behind one another
-- and have more than one byte: `proc_set_title` stores into all the bytes from `argv[0]` up to
-- `proc_last` and no others, and they read as the title. Of a title that is longer than those bytes
-- they read as what fits before a NUL.
pub proc_set_title-Fills :
    (malloc : ℕ → Option ℕ) (mem : Mem) (s : Str) (rest environ : List Str) (p : ℕ) (title : Bytes)
    {t : Titles} {mem' : Mem}
    → AreAt s.at (s ∷ rest)
    → AreAt (s.at + env_size (s ∷ rest)) environ
    → 1 < env_size (s ∷ rest) + env_size environ
    → s.at + env_size (s ∷ rest) + env_size environ < word
    → malloc (env_size environ) ≡ some p
    → proc_init malloc mem (s ∷ rest) environ ≡ ready t mem'
    → NulFree title
    → (bytes : Bytes) × ((proc_set_title t title).0 ≡ written bytes)
      × Fills
          (env_size (s ∷ rest) + env_size environ - 1)
          (cut_title (env_size (s ∷ rest) + env_size environ - 1) title)
          bytes
unfolding proc_set_title
proc_set_title-Fills malloc mem s rest environ p title {t} args env some_room small got e free =
    let args_size = env_size (s ∷ rest) in
    let env_bytes = env_size environ in
    let room = args_size + env_bytes - 1 in
    let last = s.at + args_size + env_bytes - 1 in
    let u : Titles = record { argv = s ∷ rest; environ = placed p environ; last = last } in
    let same : u ≡ t =
      eq_of_ready (sym (proc_init-AreAt malloc mem s rest environ p args env got).1 ∙ e) in
    let room_is : sub64 last s.at ≡ room =
      sub64-le last s.at (omega (arith, some_room)) (omega (arith, small))
      ∙ omega (arith, some_room) in
    let (bytes, is, fills) =
      title_bytes-Fills room title (omega (arith, some_room)) (omega (arith, small)) free in
    (
      bytes,
      ap (λ v. (proc_set_title v title).0) (sym same) ∙ ap (λ n. title_bytes n title) room_is ∙ is,
      fills,
    )
