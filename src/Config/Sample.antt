-- ===== src/Config/Sample.antt =====
-- A Judy array as a list of slots, and a heap that never runs out: they meet the laws of Config/Judy.
use libhelp.Base.{
  ℕ, ◌+◌, ◌≡◌, refl, Bool, true, false, Option, none, some, List, [], ◌∷◌, arith, not, Bool-cases,
  inl, inr, bytes_eq_refl, ap, subst, Bytes, bytes_eq, bytes_eq_iff, if◌then◌else◌,
}
use libhelp.Config.Order.{
  bytes_lt, bytes_lt_irrefl, bytes_lt_asym, bytes_ge_trans, Gives, IsOrdered,
}
use libhelp.Config.Judy.{Word, slot, Judy, IsMap, Memory, IsPlentiful}

abbrev pub Slots : Type 0
Slots = List (Bytes × Word)

abbrev get : Slots → Bytes → Option Word
get [] k = none
get ((i, w) ∷ a) k = if bytes_eq i k then some w else get a k

-- an old slot stays, a new one comes last
abbrev pub ins : Slots → Bytes → Slots
ins [] k = (k, none) ∷ []
ins ((i, w) ∷ a) k = if bytes_eq i k then (i, w) ∷ a else (i, w) ∷ ins a k

abbrev store : Slots → Bytes → Word → Slots
store [] k v = []
store ((i, w) ∷ a) k v = if bytes_eq i k then (i, v) ∷ a else (i, w) ∷ store a k v

abbrev lower : (Bytes × Word) → Option (Bytes × Word) → Option (Bytes × Word)
lower s none = some s
lower s (some t) = if bytes_lt t.0 s.0 then some t else some s

-- the lowest slot with a key that passes a test
abbrev least : (Bytes → Bool) → Slots → Option (Bytes × Word)
least passes [] = none
least passes ((i, w) ∷ a) =
    let rest = least passes a in if passes i then lower (i, w) rest else rest

abbrev pub slots : Judy
slots = record {
  Arr = Slots;
  null = [];
  get = get;
  ins = λ a k. some (ins a k);
  store = store;
  first = λ a k. least (λ i. not (bytes_lt i k)) a;
  next = λ a k. least (bytes_lt k) a;
}

get-ins :
    (a : Slots) (k i : Bytes)
    → get (ins a k) i ≡ (if bytes_eq k i then some (slot (get a k)) else get a i)
get-ins [] k i = refl
get-ins ((n, w) ∷ a) k i =
    ground (arith, bytes_eq_iff n k, bytes_eq_iff n i, bytes_eq_iff k i, get-ins a k i)

get-store :
    (a : Slots) (k i : Bytes) (v : Word)
    → get (store a k v) i
      ≡ (if bytes_eq k i then (elim (get a k) [ none ↦ none | some _ ↦ some v ]) else get a i)
get-store [] k i v = ground arith
get-store ((n, w) ∷ a) k i v =
    ground (arith, bytes_eq_iff n k, bytes_eq_iff n i, bytes_eq_iff k i, get-store a k i v)

pub slots-IsMap : IsMap slots
slots-IsMap = record {
  get-null = λ k. refl;
  get-ins = λ a b k i e. ground (arith, get-ins a k i);
  get-store = get-store;
}

-- a heap that counts the calls
abbrev pub counting : Memory
counting = record {
  Heap = ℕ;
  alloc = λ h n. (some (h + 1), h + 1);
  realloc = λ h p n. (some p, h);
  free = λ h p. h;
  pool_new = λ h size rmd. (true, h + 1);
  pool_calloc = λ h. (true, h + 1);
  pool_delete = λ h. h;
  cpy = λ h s. (true, h + 1);
}

pub counting-IsPlentiful : IsPlentiful slots counting
counting-IsPlentiful = record {
  ins_some = λ a k. (ins a k, refl);
  alloc_some = λ h n. (h + 1, refl);
  pool_new_true = λ h size rmd. refl;
  pool_calloc_true = λ h. refl;
  cpy_true = λ h s. refl;
}

-- what holds of the first key and of the others
in_front :
    (P : Bytes → Type 0) (i x : Bytes) (w u : Word) (a : Slots)
    → get ((i, w) ∷ a) x ≡ some u
    → P i
    → (get a x ≡ some u → P x)
    → P x
in_front P i x w u a e first others = elim (Bool-cases (bytes_eq i x)) [
  | inl q ↦ subst P ((bytes_eq_iff i x).0 q) first
  | inr q ↦ others (let there : get a x ≡ some u = rw q at e in there)
]

get-front : (i : Bytes) (w : Word) (a : Slots) → get ((i, w) ∷ a) i ≡ some w
get-front i w a = rw (bytes_eq_refl i) refl

get-behind :
    (i k : Bytes) (w v : Word) (a : Slots)
    → bytes_lt k i ≡ true
    → get a k ≡ some v
    → get ((i, w) ∷ a) k ≡ some v
get-behind i k w v a h e = elim (Bool-cases (bytes_eq i k)) [
  | inr q ↦ rw q e
  | inl q ↦
      let same = (bytes_eq_iff i k).0 q in
      let never : bytes_lt k k ≡ true = subst (λ x. bytes_lt k x ≡ true) same h in
      let no = bytes_lt_irrefl k in absurd cc
]

-- one more slot in front
lower-Gives :
    (passes : Bytes → Bool) (i : Bytes) (w : Word) (a : Slots) (rest : Option (Bytes × Word))
    → passes i ≡ true
    → Gives slots a passes rest
    → Gives slots ((i, w) ∷ a) passes (lower (i, w) rest)
lower-Gives passes i w a none h g = record {
  held = get-front i w a;
  passed = h;
  lowest = λ x u e p.
      in_front (λ y. bytes_lt y i ≡ false) i x w u a e (bytes_lt_irrefl i)
        (λ there. let no = g x u there in absurd cc);
}
lower-Gives passes i w a (some (k, v)) h g = elim (Bool-cases (bytes_lt k i)) [
  | inl q ↦ rw q (record {
    held = get-behind i k w v a q g.held;
    passed = g.passed;
    lowest = λ x u e p.
        in_front (λ y. bytes_lt y k ≡ false) i x w u a e (bytes_lt_asym k i q)
          (λ there. g.lowest x u there p);
  })
  | inr q ↦ rw q (record {
    held = get-front i w a;
    passed = h;
    lowest = λ x u e p.
        in_front (λ y. bytes_lt y i ≡ false) i x w u a e (bytes_lt_irrefl i)
          (λ there. bytes_ge_trans x k i (g.lowest x u there p) q);
  })
]

-- one more slot in front that does not pass
skip-Gives :
    (passes : Bytes → Bool) (i : Bytes) (w : Word) (a : Slots) (rest : Option (Bytes × Word))
    → passes i ≡ false
    → Gives slots a passes rest
    → Gives slots ((i, w) ∷ a) passes rest
skip-Gives passes i w a none h g =
    λ x u e. in_front (λ y. passes y ≡ false) i x w u a e h (λ there. g x u there)
skip-Gives passes i w a (some (k, v)) h g = record {
  held = elim (Bool-cases (bytes_eq i k)) [
    | inr q ↦ rw q g.held
    | inl q ↦ let same = ap passes ((bytes_eq_iff i k).0 q) in let no = g.passed in absurd cc
  ];
  passed = g.passed;
  lowest = λ x u e p. elim (Bool-cases (bytes_eq i x)) [
    | inl q ↦ let same = ap passes ((bytes_eq_iff i x).0 q) in absurd cc
    | inr q ↦ g.lowest x u (let there : get a x ≡ some u = rw q at e in there) p
  ];
}

least-Gives : (passes : Bytes → Bool) (a : Slots) → Gives slots a passes (least passes a)
least-Gives passes [] = λ i w e. absurd (cc e)
least-Gives passes ((i, w) ∷ a) =
    let further = least-Gives passes a in
    elim (Bool-cases (passes i)) [
      | inl q ↦ rw q (lower-Gives passes i w a (least passes a) q further)
      | inr q ↦ rw q (skip-Gives passes i w a (least passes a) q further)
    ]

pub slots-IsOrdered : IsOrdered slots
slots-IsOrdered = record {
  first = λ a k. least-Gives (λ i. not (bytes_lt i k)) a;
  next = λ a k. least-Gives (bytes_lt k) a;
}
