-- ===== src/Timer.antt =====
-- src/timer.c: the list of timers, and a round of the thread that polls them. The list `g_head` is
-- the list of its nodes, each with its address; the thread's creation and its end are left out.
pub mod Nodes
pub mod Stop
pub mod Rounds
mod Tests
use libhelp.Base.{
  ℕ, zero, suc, ◌+◌, ◌*◌, ◌/◌, ◌%◌, Bool, true, false, not, ◌&&◌, Option, none, some, List, [], ◌∷◌,
  ◌==◌, ltb, length, if◌then◌else◌,
}

-- `t_timer`
pub data TimerType : Type 0 where
  single_shot : TimerType
  periodic : TimerType

-- `struct itimerspec`: the seconds and nanoseconds of `it_value` and of `it_interval`
pub record TimerSpec : Type 0 where
  pub value_sec : ℕ
  pub value_nsec : ℕ
  pub interval_sec : ℕ
  pub interval_nsec : ℕ

-- the operating system: the heap, and the timers of the kernel
pub record Kernel : Type 1 where
  pub Os : Type 0
  -- `malloc(sizeof(struct timer_node))`
  pub malloc : Os → Option ℕ × Os
  pub free : Os → ℕ → Os
  -- `timerfd_create`; `none` is -1
  pub create : Os → Option ℕ × Os
  pub settime : Os → ℕ → TimerSpec → Os
  pub close : Os → ℕ → Os

-- `struct timer_node` at an address; `none` is a handler that is `NULL`
pub record TimerNode : Type 0 where
  pub at : ℕ
  pub fd : ℕ
  pub callback : Option ℕ
  pub user_data : ℕ
  pub interval : ℕ
  pub type : TimerType

pub record Timers (k : Kernel) : Type 0 where
  pub os : k.Os
  pub nodes : List TimerNode

-- the times of `timer_start`, for milliseconds
unfoldable pub spec_of : ℕ → TimerType → TimerSpec
spec_of interval periodic = record {
  value_sec = interval / 1000;
  value_nsec = interval % 1000 * 1000000;
  interval_sec = interval / 1000;
  interval_nsec = interval % 1000 * 1000000;
}
spec_of interval single_shot = record {
  value_sec = interval / 1000;
  value_nsec = interval % 1000 * 1000000;
  interval_sec = 0;
  interval_nsec = 0;
}

-- `while (tmp && tmp->next != node)` from a node, and the assignment to `tmp->next`
unfoldable pub unlink_behind : ℕ → TimerNode → List TimerNode → List TimerNode
unlink_behind id tmp [] = tmp ∷ []
unlink_behind id tmp (y ∷ rest) =
    let further = tmp ∷ unlink_behind id y rest in if y.at == id then tmp ∷ rest else further

-- the list without the node
unfoldable pub unlink : ℕ → List TimerNode → List TimerNode
unfolding unlink_behind
unlink id [] = []
unlink id (x ∷ rest) = if x.at == id then rest else unlink_behind id x rest

-- the node at an address, if it is one of a list
unfoldable pub node_at : ℕ → List TimerNode → Option TimerNode
node_at id [] = none
node_at id (x ∷ rest) = let further = node_at id rest in if x.at == id then some x else further

-- `_get_timer_from_fd`
unfoldable pub get_timer_from_fd : ℕ → List TimerNode → Option TimerNode
get_timer_from_fd fd [] = none
get_timer_from_fd fd (x ∷ rest) =
    let further = get_timer_from_fd fd rest in if x.fd == fd then some x else further

-- `undefined` is a use of a node that is not in the list, and a write behind `ufds`
pub data Done (k : Kernel) : Type 0 where
  ok : Timers k → Done k
  undefined : Done k
  out_of_fuel : Done k

module _ {k : Kernel} where
  infixl 5 ◌>>=◌
  abbrev pub ◌>>=◌ : Done k → (Timers k → Done k) → Done k
  ok t >>= f = f t
  undefined >>= f = undefined
  out_of_fuel >>= f = out_of_fuel

  -- The identifier of the new timer, or 0.
  unfoldable pub timer_start : Timers k → ℕ → Option ℕ → TimerType → ℕ → ℕ × Timers k
  unfolding spec_of
  timer_start t interval handler type user_data =
      let (p, heap) = k.malloc t.os in
      elim p [
        | none ↦ (0, record t { os = heap })
        | some at ↦
            let (fd, made) = k.create heap in
            elim fd [
              | none ↦ (0, record t { os = k.free made at })
              | some fd ↦ (
                at,
                record {
                  os = k.settime made fd (spec_of interval type);
                  nodes =
                      record {
                        at = at;
                        fd = fd;
                        callback = handler;
                        user_data = user_data;
                        interval = interval;
                        type = type;
                      }
                      ∷ t.nodes;
                },
              )
            ]
      ]

  unfoldable pub timer_stop : Timers k → ℕ → Done k
  unfolding unlink node_at
  timer_stop t id = if id == 0 then ok t else elim (node_at id t.nodes) [
    | none ↦ undefined
    | some node ↦ ok (record { os = k.free (k.close t.os node.fd) id; nodes = unlink id t.nodes })
  ]

  -- the loop of `timer_finalize`; `fuel` bounds its rounds
  unfoldable pub stop_all : ℕ → Timers k → Done k
  unfolding timer_stop
  stop_all zero t = out_of_fuel
  stop_all (suc fuel) t = elim t.nodes [
    | [] ↦ ok t
    | x ∷ rest ↦ do t' ← timer_stop t x.at; stop_all fuel t'
  ]

abbrev pub max_timer_count : ℕ
max_timer_count = 1000

-- What a round of the thread takes from outside: what `poll` finds and whether `read` gets eight
-- bytes, for the descriptors, and the handlers, which may start and stop timers.
pub record Events (k : Kernel) : Type 0 where
  pub pollin : ℕ → Bool
  pub reads : ℕ → Bool
  pub call : ℕ → ℕ → ℕ → Timers k → Timers k

-- the `fd` of each entry of `ufds`
unfoldable pub fds : List TimerNode → List ℕ
fds [] = []
fds (x ∷ rest) = x.fd ∷ fds rest

module _ {k : Kernel} (ev : Events k) where
  -- `tmp && tmp->callback`
  abbrev pub notify : Option TimerNode → Timers k → Timers k
  notify none t = t
  notify (some n) t = elim n.callback [ none ↦ t | some f ↦ ev.call f n.at n.user_data t ]

  -- the loop over `ufds`
  unfoldable pub serve : List ℕ → Timers k → Timers k
  unfolding get_timer_from_fd
  serve [] t = t
  serve (fd ∷ rest) t =
      serve rest
        (if ev.pollin fd && ev.reads fd then notify (get_timer_from_fd fd t.nodes) t else t)

  -- one round: `poll` returns `ready`
  unfoldable pub round : Bool → Timers k → Done k
  unfolding fds serve
  round ready t =
      if ltb max_timer_count (length t.nodes)
      then undefined
      else ok (if ready then serve (fds t.nodes) t else t)
