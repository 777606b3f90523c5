-- ===== src/Timer/Rounds.antt =====
-- A round of the thread in src/timer.c that polls the timers.
use libhelp.Base.{
  ℕ, ◌≡◌, ◌≤◌, refl, ap, ◌∙◌, true, false, if-elim, ◌&&◌, Option-elim, some, List, [], ◌∷◌, ◌==◌,
  ==_iff, le→ltb, length, All, if◌then◌else◌, arith,
}
use libhelp.Timer.{
  Kernel, Timers, TimerNode, Events, get_timer_from_fd, ok, fds, notify, serve, round,
  max_timer_count,
}
use libhelp.Timer.Nodes.{Differs, AreApart}

-- each node of a list is found by its descriptor
abbrev Found : List TimerNode → TimerNode → Type 0
Found nodes x = get_timer_from_fd x.fd nodes ≡ some x

found_later :
    (x : TimerNode) (nodes xs : List TimerNode)
    → All (Differs x) xs
    → All (Found nodes) xs
    → All (Found (x ∷ nodes)) xs
unfolding get_timer_from_fd
found_later x nodes [] d h = tt
found_later x nodes (y ∷ rest) d h =
    let other : (x.fd == y.fd) ≡ false = ground (arith, d.0.1) in
    (rw other h.0, found_later x nodes rest d.1 h.1)

each_found : (xs : List TimerNode) → AreApart xs → All (Found xs) xs
unfolding get_timer_from_fd
each_found [] h = tt
each_found (x ∷ rest) (z, d, h) =
    (rw ((==_iff x.fd x.fd).1 refl) refl, found_later x rest rest d (each_found rest h))

module _ {k : Kernel} (ev : Events k) where
  -- the handlers of the ready timers, in the order of the list
  abbrev pub announced : List TimerNode → Timers k → Timers k
  announced [] t = t
  announced (x ∷ rest) t =
      announced rest (if ev.pollin x.fd && ev.reads x.fd then notify ev (some x) t else t)

  module _
      (keeps : (f id user_data : ℕ) (t : Timers k)
        → (ev.call f id user_data t).nodes ≡ t.nodes) where
    notify-nodes : (x : TimerNode) (t : Timers k) → (notify ev (some x) t).nodes ≡ t.nodes
    notify-nodes x t =
        Option-elim (λ r. r.nodes ≡ t.nodes) x.callback t _ refl (λ f. keeps f x.at x.user_data t)

    serve-announced :
        (nodes xs : List TimerNode) (t : Timers k)
        → All (Found nodes) xs
        → t.nodes ≡ nodes
        → serve ev (fds xs) t ≡ announced xs t
    unfolding serve fds
    serve-announced nodes [] t h e = refl
    serve-announced nodes (x ∷ rest) t h e =
        let ready = ev.pollin x.fd && ev.reads x.fd in
        let found : get_timer_from_fd x.fd t.nodes ≡ some x = ap (get_timer_from_fd x.fd) e ∙ h.0 in
        let kept = if-elim (λ (r : Timers k). r.nodes ≡ nodes) ready (notify-nodes x t ∙ e) e in
        ap (λ n. serve ev (fds rest) (if ready then notify ev n t else t)) found
        ∙ serve-announced nodes rest (if ready then notify ev (some x) t else t) h.1 kept

    -- With at most 1000 apart timers, and handlers that keep the list, a round in which `poll` finds
    -- something calls the handlers of the timers that are ready and can be read, each once with its
    -- identifier and data, in the order of the list, and no others.
    pub round-announced :
        (t : Timers k)
        → AreApart t.nodes
        → length t.nodes ≤ max_timer_count
        → round ev true t ≡ ok (announced t.nodes t)
    unfolding round
    round-announced t apart few =
        rw (le→ltb max_timer_count (length t.nodes) few)
          (ap ok (serve-announced t.nodes t.nodes t (each_found t.nodes apart) refl))
