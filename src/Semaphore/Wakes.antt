-- ===== src/Semaphore/Wakes.antt =====
-- The signals of `semaphore_post` in src/semaphore.c, for a semaphore with one thread that waits.
use libhelp.Base.{
  ℕ, zero, suc, ◌≡◌, refl, ap, ◌∙◌, subst, arith, false, none, some, eq_of_some, [], ◌∷◌, get_elem?,
  set,
}
use libhelp.Semaphore.{
  Phase, outside, testing, sleeping, Semaphore, Step, post_wakes, post_unheard, post_quiet, enter,
  sleep, pass, spurious, Reaches, here, later, created, signals, wait_round,
}

-- a semaphore with one thread, which sleeps only at a count of 0
record IsAwake (s : Semaphore) : Type 0 where
  phase : Phase
  one : s.threads ≡ phase ∷ []
  asleep : phase ≡ sleeping → s.count ≡ 0

set-one :
    (p q r : Phase) (i : ℕ) → get_elem? (p ∷ []) i ≡ some q → (set (p ∷ []) i r ≡ r ∷ []) × (p ≡ q)
set-one p q r zero e = (refl, eq_of_some e)
set-one p q r (suc i) e = absurd cc

moved :
    (s : Semaphore) (q r : Phase) (i : ℕ)
    → IsAwake s
    → get_elem? s.threads i ≡ some q
    → (set s.threads i r ≡ r ∷ [])
moved s q r i h e =
    ap (λ ts. set ts i r) h.one
    ∙ (set-one h.phase q r i (subst (λ ts. get_elem? ts i ≡ some q) h.one e)).0

wait_round-none : (count : ℕ) → wait_round count ≡ none → count ≡ 0
unfolding wait_round
wait_round-none count e = ground (arith, e)

signals-false : (count : ℕ) → signals count ≡ false → count ≡ 0 → ⊥
unfolding signals
signals-false count e z = ground (arith, e, z)

Step-IsAwake : {s t : Semaphore} → Step s t → IsAwake s → IsAwake t
Step-IsAwake {s} (post_wakes i q p) h = record {
  phase = testing;
  one = moved s sleeping testing i h p;
  asleep = λ e. absurd cc;
}
Step-IsAwake {s} (post_unheard q nobody) h = record {
  phase = h.phase;
  one = h.one;
  asleep = λ e. absurd (nobody 0 (ap (λ ts. get_elem? ts 0) h.one ∙ ap some e));
}
Step-IsAwake {s} (post_quiet q) h = record {
  phase = h.phase;
  one = h.one;
  asleep = λ e. absurd (signals-false s.count q (h.asleep e));
}
Step-IsAwake {s} (enter i p) h = record {
  phase = testing;
  one = moved s outside testing i h p;
  asleep = λ e. absurd cc;
}
Step-IsAwake {s} (sleep i p e) h = record {
  phase = sleeping;
  one = moved s testing sleeping i h p;
  asleep = λ q. wait_round-none s.count e;
}
Step-IsAwake {s} (pass i left p e) h = record {
  phase = outside;
  one = moved s testing outside i h p;
  asleep = λ e. absurd cc;
}
Step-IsAwake {s} (spurious i p) h = record {
  phase = testing;
  one = moved s sleeping testing i h p;
  asleep = λ e. absurd cc;
}

Reaches-IsAwake : {s : Semaphore} → Reaches (created 1) s → IsAwake s
unfolding created
Reaches-IsAwake here = record { phase = outside; one = refl; asleep = λ e. absurd cc }
Reaches-IsAwake (later r step) = Step-IsAwake step (Reaches-IsAwake r)

-- With one thread that calls `semaphore_wait`, in every state that a new semaphore
-- reaches, a thread that sleeps means a count of 0.
pub created-Awake :
    {s : Semaphore} (i : ℕ)
    → Reaches (created 1) s
    → get_elem? s.threads i ≡ some sleeping
    → s.count ≡ 0
created-Awake {s} i r e =
    let h = Reaches-IsAwake r in
    h.asleep
      (set-one h.phase sleeping outside i (subst (λ ts. get_elem? ts i ≡ some sleeping) h.one e)).1
