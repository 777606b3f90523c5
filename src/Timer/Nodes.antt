-- ===== src/Timer/Nodes.antt =====
-- The list of timers of src/timer.c: nodes with their own addresses and descriptors, of which one is
-- added, found or removed.
use libhelp.Base.{
  ℕ, suc, ◌≡◌, ◌≢◌, refl, sym, ap, subst, ◌∙◌, false, Bool-cases, none, some, eq_of_some, List, [],
  ◌∷◌, ◌==◌, ==_iff, length, All, if◌then◌else◌, arith, inl, inr,
}
use libhelp.Timer.{TimerNode, unlink, unlink_behind, node_at, get_timer_from_fd}

abbrev pub Differs : TimerNode → TimerNode → Type 0
Differs x y = (x.at ≢ y.at) × (x.fd ≢ y.fd)

-- Nodes that are not at `NULL`, and of which no two have an address or a descriptor in common.
abbrev pub AreApart : List TimerNode → Type 0
AreApart [] = Unit
AreApart (x ∷ rest) = (x.at ≢ 0) × All (Differs x) rest × AreApart rest

-- the list without the node at an address
unfoldable pub without : ℕ → List TimerNode → List TimerNode
without id [] = []
without id (x ∷ rest) = let further = x ∷ without id rest in if x.at == id then rest else further

unlink_behind-without :
    (id : ℕ) (x : TimerNode) (rest : List TimerNode) → unlink_behind id x rest ≡ x ∷ without id rest
unfolding unlink_behind without
unlink_behind-without id x [] = refl
unlink_behind-without id x (y ∷ rest) = elim (Bool-cases (y.at == id)) [
  | inl h ↦ rw h refl
  | inr h ↦ rw h (ap (◌∷◌ x) (unlink_behind-without id y rest))
]

pub unlink-without : (id : ℕ) (xs : List TimerNode) → unlink id xs ≡ without id xs
unfolding unlink without
unlink-without id [] = refl
unlink-without id (x ∷ rest) =
    ap (λ r. if x.at == id then rest else r) (unlink_behind-without id x rest)

without-All :
    (P : TimerNode → Type 0) (id : ℕ) (xs : List TimerNode) → All P xs → All P (without id xs)
unfolding without
without-All P id [] h = tt
without-All P id (x ∷ rest) h = elim (Bool-cases (x.at == id)) [
  | inl e ↦ rw e h.1
  | inr e ↦ rw e (h.0, without-All P id rest h.1)
]

pub without-AreApart : (id : ℕ) (xs : List TimerNode) → AreApart xs → AreApart (without id xs)
unfolding without
without-AreApart id [] h = tt
without-AreApart id (x ∷ rest) (z, d, h) = elim (Bool-cases (x.at == id)) [
  | inl e ↦ rw e h
  | inr e ↦ rw e (z, without-All (Differs x) id rest d, without-AreApart id rest h)
]

pub node_at-All :
    (P : TimerNode → Type 0) (id : ℕ) (xs : List TimerNode) {n : TimerNode}
    → All P xs
    → node_at id xs ≡ some n
    → P n × (n.at ≡ id)
unfolding node_at
node_at-All P id [] h e = absurd cc
node_at-All P id (x ∷ rest) {n} h e = elim (Bool-cases (x.at == id)) [
  | inl q ↦
      let same : x ≡ n = eq_of_some (rw q at e) in
      (subst P same h.0, ap TimerNode.at (sym same) ∙ (==_iff x.at id).0 q)
  | inr q ↦ node_at-All P id rest h.1 (rw q at e)
]

pub get_timer_from_fd-Differs :
    (x : TimerNode) (xs : List TimerNode) → All (Differs x) xs → get_timer_from_fd x.fd xs ≡ none
unfolding get_timer_from_fd
get_timer_from_fd-Differs x [] h = refl
get_timer_from_fd-Differs x (y ∷ rest) ((a, d), h) = elim (Bool-cases (y.fd == x.fd)) [
  | inl e ↦ absurd (d (sym ((==_iff y.fd x.fd).0 e)))
  | inr e ↦ rw e (get_timer_from_fd-Differs x rest h)
]

head_gone :
    (fd : ℕ) (x : TimerNode) (rest : List TimerNode)
    → All (Differs x) rest
    → get_timer_from_fd fd rest ≡ (if x.fd == fd then none else get_timer_from_fd fd (x ∷ rest))
unfolding get_timer_from_fd
head_gone fd x rest d = elim (Bool-cases (x.fd == fd)) [
  | inl f ↦
      let at : x.fd ≡ fd = (==_iff x.fd fd).0 f in
      rw f (subst (λ v. get_timer_from_fd v rest ≡ none) at (get_timer_from_fd-Differs x rest d))
  | inr f ↦ rw f refl
]

-- Without the node at an address, its descriptor is not found, and the others are found as before.
pub get_timer_from_fd-without :
    (fd id : ℕ) (xs : List TimerNode) {n : TimerNode}
    → AreApart xs
    → node_at id xs ≡ some n
    → get_timer_from_fd fd (without id xs) ≡ (if n.fd == fd then none else get_timer_from_fd fd xs)
unfolding get_timer_from_fd without node_at
get_timer_from_fd-without fd id [] h e = absurd cc
get_timer_from_fd-without fd id (x ∷ rest) {n} (z, d, h) e = elim (Bool-cases (x.at == id)) [
  | inl q ↦
      let same : x ≡ n = eq_of_some (rw q at e) in
      rw q (
        subst
          (λ m.
            get_timer_from_fd fd rest
            ≡ (if m.fd == fd then none else get_timer_from_fd fd (x ∷ rest)))
          same (head_gone fd x rest d))
  | inr q ↦
      let later : node_at id rest ≡ some n = rw q at e in
      let differs : Differs x n = (node_at-All (Differs x) id rest d later).0 in
      rw q (elim (Bool-cases (x.fd == fd)) [
        | inl f ↦
            let other : (n.fd == fd) ≡ false = ground (arith, f, differs.1) in rw f (rw other refl)
        | inr f ↦ rw f (get_timer_from_fd-without fd id rest h later)
      ])
]

pub length-without :
    (id : ℕ) (xs : List TimerNode) {n : TimerNode}
    → node_at id xs ≡ some n
    → length xs ≡ suc (length (without id xs))
unfolding without node_at
length-without id [] e = absurd cc
length-without id (x ∷ rest) e = elim (Bool-cases (x.at == id)) [
  | inl q ↦ rw q refl
  | inr q ↦ rw q (ap suc (length-without id rest (rw q at e)))
]
