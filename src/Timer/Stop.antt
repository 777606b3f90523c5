-- ===== src/Timer/Stop.antt =====
-- Timers that start, stop and are finalized in src/timer.c.
use libhelp.Base.{
  ℕ, zero, suc, ◌+◌, ◌*◌, ◌<◌, ◌≡◌, ◌≢◌, refl, sym, ap, ◌∙◌, false, Option, none, some, List, [],
  ◌∷◌, ◌==◌, ==_iff, length, All, if◌then◌else◌, arith, inl, inr, Option-elim_eq, ◌⊎◌,
}
use libhelp.Timer.{
  Kernel, Timers, TimerNode, TimerSpec, TimerType, single_shot, periodic, spec_of, unlink, node_at,
  get_timer_from_fd, ok, timer_start, timer_stop, stop_all,
}
use libhelp.Timer.Nodes.{
  Differs, AreApart, unlink-without, without-AreApart, get_timer_from_fd-without, length-without,
  node_at-All,
}

-- The times of a timer: those of its interval in milliseconds, once or again and again, in seconds
-- and nanoseconds that `timerfd_settime` accepts.
pub record Denotes (interval : ℕ) (type : TimerType) (s : TimerSpec) : Type 0 where
  pub value : s.value_sec * 1000000000 + s.value_nsec ≡ interval * 1000000
  pub value_fits : s.value_nsec < 1000000000
  pub again :
      s.interval_sec * 1000000000 + s.interval_nsec
      ≡ (elim type [ single_shot ↦ 0 | periodic ↦ interval * 1000000 ])
  pub again_fits : s.interval_nsec < 1000000000

spec_of-Denotes : (interval : ℕ) (t : TimerType) → Denotes interval t (spec_of interval t)
unfolding spec_of
spec_of-Denotes interval single_shot = record {
  value = omega arith;
  value_fits = omega arith;
  again = refl;
  again_fits = omega arith;
}
spec_of-Denotes interval periodic = record {
  value = omega arith;
  value_fits = omega arith;
  again = omega arith;
  again_fits = omega arith;
}

each_unit : (xs : List TimerNode) → All {0, 0} (λ m. Unit) xs
each_unit [] = tt
each_unit (x ∷ rest) = (tt, each_unit rest)

differ :
    (x : TimerNode) (xs : List TimerNode)
    → All (λ m. x.at ≢ m.at) xs
    → All (λ m. x.fd ≢ m.fd) xs
    → All (Differs x) xs
differ x [] h d = tt
differ x (y ∷ rest) h d = ((h.0, d.0), differ x rest h.1 d.1)

node_at-head : (x : TimerNode) (rest : List TimerNode) → node_at x.at (x ∷ rest) ≡ some x
unfolding node_at
node_at-head x rest = rw ((==_iff x.at x.at).1 refl) refl

unlink-head : (x : TimerNode) (rest : List TimerNode) → unlink x.at (x ∷ rest) ≡ rest
unfolding unlink
unlink-head x rest = rw ((==_iff x.at x.at).1 refl) refl

-- the system after each node's descriptor was closed and the node freed, in the order of the list
abbrev pub released : (k : Kernel) → List TimerNode → k.Os → k.Os
released k [] os = os
released k (x ∷ rest) os = released k rest (k.free (k.close os x.fd) x.at)

module _ {k : Kernel} where
  -- A timer that stopped: its node is gone from the list and freed, and its descriptor is closed; all
  -- other timers are found as before.
  pub record Stopped (t : Timers k) (n : TimerNode) (t' : Timers k) : Type 0 where
    pub apart : AreApart t'.nodes
    pub one_less : length t.nodes ≡ suc (length t'.nodes)
    pub released : t'.os ≡ k.free (k.close t.os n.fd) n.at
    pub found :
        (fd : ℕ)
        → get_timer_from_fd fd t'.nodes
          ≡ (if n.fd == fd then none else get_timer_from_fd fd t.nodes)

  -- `timer_stop` with the identifier of a timer of the list succeeds: it removes that timer only,
  -- closes its descriptor and frees its node, and the nodes stay apart.
  pub timer_stop-Stopped :
      (t : Timers k) (id : ℕ) {n : TimerNode}
      → AreApart t.nodes
      → id ≢ 0
      → node_at id t.nodes ≡ some n
      → (t' : Timers k) × (timer_stop t id ≡ ok t') × Stopped t n t'
  unfolding timer_stop
  timer_stop-Stopped t id {n} apart some_id e =
      let timed : (id == 0) ≡ false = ground (arith, some_id) in
      let at : n.at ≡ id = (node_at-All (λ m. Unit) id t.nodes (each_unit t.nodes) e).1 in
      let gone = unlink-without id t.nodes in
      (
        record { os = k.free (k.close t.os n.fd) id; nodes = unlink id t.nodes },
        rw timed (rw e refl),
        record {
          apart = rw gone (without-AreApart id t.nodes apart);
          one_less = length-without id t.nodes e ∙ ap (λ l. suc (length l)) (sym gone);
          released = ap (k.free (k.close t.os n.fd)) (sym at);
          found = λ fd.
              ap (get_timer_from_fd fd) gone ∙ get_timer_from_fd-without fd id t.nodes apart e;
        },
      )

  stop_all-released :
      (fuel : ℕ) (nodes : List TimerNode) (os : k.Os)
      → AreApart nodes
      → length nodes < fuel
      → stop_all {k = k} fuel (record { os = os; nodes = nodes })
        ≡ ok (record { os = released k nodes os; nodes = [] })
  unfolding stop_all timer_stop
  stop_all-released zero nodes os apart more = absurd (omega (arith, more))
  stop_all-released (suc fuel) [] os apart more = refl
  stop_all-released (suc fuel) (x ∷ rest) os (z, d, h) more =
      let timed : (x.at == 0) ≡ false = ground (arith, z) in
      rw timed (
        rw (node_at-head x rest) (
          rw (unlink-head x rest)
            (stop_all-released fuel rest (k.free (k.close os x.fd) x.at) h (omega (arith, more)))))

  -- For apart nodes, the loop of `timer_finalize` ends after as many rounds as there are timers, and
  -- one more test: the list is empty, each descriptor is closed and each node freed, once, in order.
  pub stop_all-Empties :
      (fuel : ℕ) (t : Timers k)
      → AreApart t.nodes
      → length t.nodes < fuel
      → stop_all fuel t ≡ ok (record { os = released k t.nodes t.os; nodes = [] })
  stop_all-Empties fuel t apart more = stop_all-released fuel t.nodes t.os apart more

  -- `malloc` and `timerfd_create` return what no timer of the list has.
  pub record IsFresh (t : Timers k) : Type 0 where
    pub address : (p : ℕ) → (k.malloc t.os).0 ≡ some p → (p ≢ 0) × All (λ m. p ≢ m.at) t.nodes
    pub descriptor :
        (fd : ℕ) → (k.create (k.malloc t.os).1).0 ≡ some fd → All (λ m. fd ≢ m.fd) t.nodes

  -- A timer that started, and the system after it: the node stands first, and its times are set.
  pub record Added (t : Timers k) (n : TimerNode) (t' : Timers k) : Type 0 where
    pub some_id : n.at ≢ 0
    pub nodes : t'.nodes ≡ n ∷ t.nodes
    pub apart : AreApart t'.nodes
    pub times : TimerSpec
    pub times_denote : Denotes n.interval n.type times
    pub set : t'.os ≡ k.settime (k.create (k.malloc t.os).1).1 n.fd times

  pub data Starts (t : Timers k) (interval : ℕ) (handler : Option ℕ) (type : TimerType)
      (user_data : ℕ) : ℕ × Timers k → Type 0 where
    lacks :
        {r : ℕ × Timers k}
        → r.0 ≡ 0
        → r.1.nodes ≡ t.nodes
        → (((k.malloc t.os).0 ≡ none) × (r.1.os ≡ (k.malloc t.os).1))
          ⊎ ((p : ℕ) × ((k.malloc t.os).0 ≡ some p)
              × ((k.create (k.malloc t.os).1).0 ≡ none)
              × (r.1.os ≡ k.free (k.create (k.malloc t.os).1).1 p))
        → Starts t interval handler type user_data r
    starts :
        {r : ℕ × Timers k} (n : TimerNode)
        → r.0 ≡ n.at
        → n.interval ≡ interval
        → n.callback ≡ handler
        → n.type ≡ type
        → n.user_data ≡ user_data
        → Added t n r.1
        → Starts t interval handler type user_data r

  -- When a node or a descriptor lacks, `timer_start` returns 0, leaves the list, and frees the node
  -- if there is one. Otherwise it returns the address of a new node with the given handler, data and
  -- interval, which stands first in the list, apart from the others, and whose descriptor is set to
  -- the interval in milliseconds, repeated if the timer is periodic.
  pub timer_start-Starts :
      (t : Timers k) (interval : ℕ) (handler : Option ℕ) (type : TimerType) (user_data : ℕ)
      → AreApart t.nodes
      → IsFresh t
      → Starts t interval handler type user_data (timer_start t interval handler type user_data)
  unfolding timer_start
  timer_start-Starts t interval handler type user_data apart fresh =
      Option-elim_eq (Starts t interval handler type user_data) (k.malloc t.os).0 _ _
        (λ e. lacks refl refl (inl (e, refl)))
        (λ at e.
          Option-elim_eq (Starts t interval handler type user_data) (k.create (k.malloc t.os).1).0 _
            _ (λ f. lacks refl refl (inr (at, e, f, refl)))
            (λ fd f.
              let n : TimerNode = record {
                at = at;
                fd = fd;
                callback = handler;
                user_data = user_data;
                interval = interval;
                type = type;
              } in
              starts n refl refl refl refl refl (record {
                some_id = (fresh.address at e).0;
                nodes = refl;
                apart = (
                  (fresh.address at e).0,
                  differ n t.nodes (fresh.address at e).1 (fresh.descriptor fd f),
                  apart,
                );
                times = spec_of interval type;
                times_denote = spec_of-Denotes interval type;
                set = refl;
              })))
