-- ===== src/Lockrun/Wait.antt =====
-- The wait for the lock in src/lockrun.c, and what is known of a run whose command starts.
use libhelp.Base.{
  ℕ, zero, suc, ◌+◌, ◌-◌, ◌^◌, ◌<◌, ◌≤◌, ◌≡◌, refl, true, false, pos, arith, ◌∙◌, subst, not,
  if◌then◌else◌, sym, lt→leb, if-elim, ==_iff, ◌==◌, Bool-cases, inl, inr,
}
use libhelp.Lockrun.{Options, System, Locking, acquired, gives_up, enough_tries, lock_loop}

module _ (sys : System) (o : Options) (wait : o.wait_for_lock ≡ true) (n : ℕ)
    (retries : o.retries ≡ pos n) (int : n < 2 ^ 31) where
  again :
      (fuel a : ℕ)
      → sys.locked a ≡ true
      → a + 1 < n
      → lock_loop (suc fuel) sys o a ≡ lock_loop fuel sys o (a + 1)
  unfolding lock_loop
  again fuel a h lt =
      rw h (rw (lt→leb (2 ^ 31) (a + 1) (omega arith)) (rw wait (rw retries (ground arith))))

  -- the last try fails
  last_try :
      (fuel a : ℕ) → sys.locked a ≡ true → a + 1 ≡ n → lock_loop (suc fuel) sys o a ≡ gives_up 1 n
  unfolding lock_loop
  last_try fuel a h e =
      rw h (rw (lt→leb (2 ^ 31) (a + 1) (omega arith)) (rw wait (rw retries (ground arith))))

  in_time :
      (k fuel a t : ℕ)
      → k < fuel
      → a + k ≡ t
      → t < n
      → ((i : ℕ) → i < t → sys.locked i ≡ true)
      → sys.locked t ≡ false
      → lock_loop fuel sys o a ≡ acquired t
  unfolding lock_loop
  in_time k zero a t more e lt held free = absurd (omega (arith, more))
  in_time zero (suc fuel) a t more e lt held free =
      let at : a ≡ t = omega arith in rw at (rw free refl)
  in_time (suc k) (suc fuel) a t more e lt held free =
      again fuel a (held a (omega arith)) (omega arith)
      ∙ in_time k fuel (a + 1) t (omega arith) (omega arith) lt held free

  too_late :
      (k fuel a : ℕ)
      → k < fuel
      → a + suc k ≡ n
      → ((i : ℕ) → i < n → sys.locked i ≡ true)
      → lock_loop fuel sys o a ≡ gives_up 1 n
  too_late k zero a more e held = absurd (omega (arith, more))
  too_late zero (suc fuel) a more e held = last_try fuel a (held a (omega arith)) (omega arith)
  too_late (suc k) (suc fuel) a more e held =
      again fuel a (held a (omega arith)) (omega arith)
      ∙ too_late k fuel (a + 1) (omega arith) (omega arith) held

  -- With `--wait` and `--retries=n`, where n is positive, n tries are enough fuel. Let t be the first
  -- try at which the lock is free, or n if the first n tries fail: the lock is acquired at try t if
  -- t is not n; otherwise the run gives up with status 1 after exactly n tries.
  pub lock_loop-Decides :
      (fuel t : ℕ)
      → 0 < n
      → n ≤ fuel
      → t ≤ n
      → ((i : ℕ) → i < t → sys.locked i ≡ true)
      → (t < n → sys.locked t ≡ false)
      → lock_loop fuel sys o 0 ≡ (if t == n then gives_up 1 n else acquired t)
  lock_loop-Decides fuel t some_try enough at held free = elim (Bool-cases (t == n)) [
    | inl h ↦
        let same : t ≡ n = (==_iff t n).0 h in
        rw h (
          too_late (n - 1) fuel 0 (omega (arith, same)) (omega arith)
            (λ i lt. held i (omega (arith, same))))
    | inr h ↦
        let lt : t < n = ground (arith, h, at) in
        rw h (in_time t fuel 0 t (omega arith) (omega arith) lt held (free lt))
  ]

-- What the loop tells: the lock was free at the try at which it was acquired, and not before.
pub record Free (sys : System) (from t : ℕ) : Type 0 where
  pub after : from ≤ t
  pub free : sys.locked t ≡ false
  pub held : (i : ℕ) → from ≤ i → i < t → sys.locked i ≡ true

held_first : {sys : System} {a t : ℕ} → sys.locked a ≡ true → Free sys (a + 1) t → Free sys a t
held_first {sys} {a} {t} h f = record {
  after = omega (arith, f.after);
  free = f.free;
  held = λ i lo hi. elim (Bool-cases (a == i)) [
    | inl e ↦ subst (λ k. sys.locked k ≡ true) ((==_iff a i).0 e) h
    | inr e ↦ f.held i (ground (arith, e, lo)) hi
  ];
}

pub lock_loop-Free :
    (fuel : ℕ) (sys : System) (o : Options) (a t : ℕ)
    → lock_loop fuel sys o a ≡ acquired t
    → Free sys a t
unfolding lock_loop
lock_loop-Free zero sys o a t e = absurd cc
lock_loop-Free (suc fuel) sys o a t e = elim (Bool-cases (sys.locked a)) [
  | inl h ↦
      let later : lock_loop fuel sys o (a + 1) ≡ acquired t → Free sys a t =
        λ q. held_first h (lock_loop-Free fuel sys o (a + 1) t q) in
      let given : Locking → Type 0 = λ r. r ≡ acquired t → Free sys a t in
      let overflow : given Locking.undefined = λ q. absurd cc in
      let giving : (s k : ℕ) → given (gives_up s k) = λ s k q. absurd cc in
      if-elim given _ overflow
        (if-elim given (not o.wait_for_lock) (giving (if o.quiet then 0 else 1) (a + 1))
          (if-elim given (enough_tries o.retries (a + 1)) (giving 1 (a + 1)) later))
        (rw h at e)
  | inr h ↦
      let same : acquired a ≡ acquired t = rw h at e in
      let at : a ≡ t = cc in
      record {
        after = omega (arith, at);
        free = rw (sym at) h;
        held = λ i lo hi. absurd (omega (arith, lo, hi, at));
      }
]
