-- ===== src/Timer/Tests.antt =====
-- Runs of src/timer.c, and its theorems at a list of two timers.
use libhelp.Base.{ℕ, ◌+◌, ◌≡◌, refl, eq_of_some, arith, true, some, none, List, [], ◌∷◌, ◌==◌}
use libhelp.Timer.{
  node_at, Kernel, Timers, TimerNode, TimerSpec, single_shot, periodic, Events, Done, ok,
  timer_start, timer_stop, stop_all, round,
}
use libhelp.Timer.Nodes.{AreApart}
use libhelp.Timer.Stop.{
  IsFresh, Stopped, released, Starts, timer_stop-Stopped, stop_all-Empties, timer_start-Starts,
}
use libhelp.Timer.Rounds.{announced, round-announced}

-- A system that gives out addresses and descriptors in order, and keeps what it released.
record Counter : Type 0 where
  next : ℕ
  closed : List ℕ
  freed : List ℕ
  times : List TimerSpec
  calls : List (ℕ × ℕ)

abbrev kernel : Kernel
kernel = record {
  Os = Counter;
  malloc = λ o. (some (4096 + o.next), record o { next = o.next + 16 });
  free = λ o p. record o { freed = p ∷ o.freed };
  create = λ o. (some o.next, record o { next = o.next + 1 });
  settime = λ o fd s. record o { times = s ∷ o.times };
  close = λ o fd. record o { closed = fd ∷ o.closed };
}

abbrev first : TimerNode
first = record {
  at = 4099;
  fd = 4;
  callback = some 1;
  user_data = 10;
  interval = 1500;
  type = periodic;
}

abbrev second : TimerNode
second = record {
  at = 4116;
  fd = 5;
  callback = some 2;
  user_data = 20;
  interval = 20;
  type = single_shot;
}

abbrev timers : Timers kernel
timers = record {
  os = record { next = 40; closed = []; freed = []; times = []; calls = [] };
  nodes = second ∷ first ∷ [];
}

abbrev events : Events kernel
events = record {
  pollin = λ fd. fd == 4;
  reads = λ fd. true;
  call = λ f id user_data t. record t { os = record t.os { calls = (f, id) ∷ t.os.calls } };
}

timers-AreApart : AreApart timers.nodes
timers-AreApart = (
  λ e. omega (arith, e),
  ((λ e. omega (arith, e), λ e. omega (arith, e)), tt),
  (λ e. omega (arith, e), tt, tt),
)

timers-IsFresh : IsFresh timers
timers-IsFresh = record {
  address = λ p e.
      let q : 4136 ≡ p = eq_of_some e in
      (λ z. omega (arith, q, z), (λ z. omega (arith, q, z), (λ z. omega (arith, q, z), tt)));
  descriptor = λ fd e.
      let q : 56 ≡ fd = eq_of_some e in (λ z. omega (arith, q, z), (λ z. omega (arith, q, z), tt));
}

timer_stop-Stopped_example :
    (t' : Timers kernel) × (timer_stop timers 4099 ≡ ok t') × Stopped timers first t'
unfolding node_at
timer_stop-Stopped_example =
    timer_stop-Stopped timers 4099 timers-AreApart (λ e. omega (arith, e)) refl

stop_all-Empties_example :
    stop_all 3 timers ≡ ok (record { os = released kernel timers.nodes timers.os; nodes = [] })
stop_all-Empties_example = stop_all-Empties 3 timers timers-AreApart (omega arith)

timer_start-Starts_example :
    Starts timers 2500 none periodic 0 (timer_start timers 2500 none periodic 0)
timer_start-Starts_example =
    timer_start-Starts timers 2500 none periodic 0 timers-AreApart timers-IsFresh

round-announced_example : round events true timers ≡ ok (announced events timers.nodes timers)
round-announced_example =
    round-announced events (λ f id user_data t. refl) timers timers-AreApart (omega arith)

-- the handler of the timer that is ready is called, and no other
one_call :
    announced events timers.nodes timers
    ≡ record timers { os = record timers.os { calls = (1, 4099) ∷ [] } }
one_call = refl

-- a pointer that is no timer
unknown_timer : timer_stop timers 8 ≡ Done.undefined
unfolding timer_stop
unknown_timer = refl
