-- ===== src/Messages/Tcp/Serve.antt =====
-- The thread of a TCP server of src/proc_msg_tcp.cpp, one connection after the other.
use libhelp.Base.{
  ℕ, zero, suc, ◌-◌, ◌%◌, ◌^◌, ◌<◌, ◌≡◌, refl, ap, ◌∙◌, Bool-cases, inl, inr, Option, none, some,
  List, [], ◌∷◌, ◌++◌, arith, length, ltb, All, if◌then◌else◌,
}
use libhelp.Messages.Queue.{is_server}
use libhelp.Messages.Tcp.{
  Network, ProcMsgTcp, ParserCall, take_message, recv, parse_on, receive_loop, close_client,
  serve_client, handler_round, go_on, handler, handler_start, calls_before,
}
use libhelp.Messages.Types.{server, ProcMsg}

-- What a call of `recv` reads: the time at which it returns, its result, and the contents.
abbrev pub Read : Type 0
Read = ℕ × ℕ × ProcMsg

-- a connection: its descriptor, and what is read from it before the peer closes it
abbrev pub Visit : Type 0
Visit = ℕ × List Read

-- The connections that wait at the listening socket `sd`, and one that was accepted and from which so
-- much is still to be read.
pub record IsListener (net : Network) : Type 1 where
  pub Waiting : net.Os → ℕ → List Visit → Type 0
  pub Talking : net.Os → ℕ → ℕ → List Read → List Visit → Type 0
  pub accepts :
      (os : net.Os) (sd fd : ℕ) (xs : List Read) (vs : List Visit)
      → Waiting os sd ((fd, xs) ∷ vs)
      → (os' : net.Os) × (net.accept os (some sd) ≡ (some fd, os')) × Talking os' sd fd xs vs
  pub receives :
      (os : net.Os) (sd fd t n : ℕ) (m old : ProcMsg) (xs : List Read) (vs : List Visit)
      → Talking os sd fd ((t, n, m) ∷ xs) vs
      → (os' : net.Os) × (net.recv os (some fd) old ≡ (some (n, m), os'))
        × (net.time os' ≡ t)
        × Talking os' sd fd xs vs
  pub ends :
      (os : net.Os) (sd fd : ℕ) (old : ProcMsg) (vs : List Visit)
      → Talking os sd fd [] vs
      → (os' : net.Os) × (net.recv os (some fd) old ≡ (none, os')) × Talking os' sd fd [] vs
  pub closes :
      (os : net.Os) (sd fd : ℕ) (xs : List Read) (vs : List Visit)
      → Talking os sd fd xs vs
      → Waiting (net.close os (some fd)) sd vs

-- What the parser gets of a connection: the messages up to the first that is older than a second when
-- it is read.
unfoldable pub accepted : List Read → List ParserCall
accepted [] = []
accepted ((t, n, m) ∷ xs) =
    let rest = accepted xs in
    if ltb 1 (t - m.time_send) then [] else (m.type % 2 ^ 32, n, m.text) ∷ rest

-- and of all of them
abbrev pub all_accepted : List Visit → List ParserCall
all_accepted [] = []
all_accepted ((fd, xs) ∷ vs) = accepted xs ++ all_accepted vs

module _ {net : Network} (l : IsListener net) (sd : ℕ) where
  -- what a server reads from the connection
  recv-server :
      (p : ProcMsgTcp net) (fd : ℕ) {got : Option (ℕ × ProcMsg)} {os : net.Os}
      → p.type ≡ server
      → p.client_sd ≡ some fd
      → net.recv p.os (some fd) p.pmsg ≡ (got, os)
      → recv p ≡ take_message p (got, os)
  unfolding recv
  recv-server p fd {got} {os} role at e =
      let from : (if is_server p.type then p.client_sd else p.sd) ≡ some fd = rw role at in
      ap (λ d. take_message p (net.recv p.os d p.pmsg)) from ∙ ap (take_message p) e

  -- after the inner loop on a connection
  record Spoke (fd : ℕ) (xs : List Read) (vs : List Visit) (fuel : ℕ) (p : ProcMsgTcp net)
      : Type 0 where
    after : ProcMsgTcp net
    left : List Read
    gives : receive_loop fuel p ≡ some (accepted xs, after)
    talking : l.Talking after.os sd fd left vs
    same_type : after.type ≡ p.type
    same_sd : after.sd ≡ p.sd
    same_client : after.client_sd ≡ p.client_sd

  receive_loop-Spoke :
      (fd : ℕ) (xs : List Read) (vs : List Visit) (fuel : ℕ) (p : ProcMsgTcp net)
      → p.type ≡ server
      → p.client_sd ≡ some fd
      → l.Talking p.os sd fd xs vs
      → length xs < fuel
      → Spoke fd xs vs fuel p
  unfolding receive_loop accepted
  receive_loop-Spoke fd xs vs zero p role at t enough = absurd (omega (arith, enough))
  receive_loop-Spoke fd [] vs (suc fuel) p role at t enough =
      let (os', e, t') = l.ends p.os sd fd p.pmsg vs t in
      record {
        after = record p { os = os' };
        left = [];
        gives = ap (parse_on (receive_loop fuel)) (recv-server p fd role at e);
        talking = t';
        same_type = refl;
        same_sd = refl;
        same_client = refl;
      }
  receive_loop-Spoke fd ((time, n, m) ∷ xs) vs (suc fuel) p role at t enough =
      let (os', e, now, t') = l.receives p.os sd fd time n m p.pmsg xs vs t in
      let p' : ProcMsgTcp net = record p { os = os'; pmsg = m } in
      let step = ap (parse_on (receive_loop fuel)) (recv-server p fd role at e) in
      elim (Bool-cases (ltb 1 (time - m.time_send))) [
        | inl old ↦ record {
          after = p';
          left = xs;
          gives = step ∙ rw now (rw old refl);
          talking = t';
          same_type = refl;
          same_sd = refl;
          same_client = refl;
        }
        | inr new ↦
            let s = receive_loop-Spoke fd xs vs fuel p' role at t' (omega (arith, enough)) in
            record {
              after = s.after;
              left = s.left;
              gives = step ∙ rw now (rw new (rw s.gives refl));
              talking = s.talking;
              same_type = s.same_type;
              same_sd = s.same_sd;
              same_client = s.same_client;
            }
      ]

  -- after a round of the outer loop
  record Served (xs : List Read) (vs : List Visit) (fuel : ℕ) (p : ProcMsgTcp net) : Type 0 where
    after : ProcMsgTcp net
    gives : handler_round fuel p ≡ some (accepted xs, after)
    waiting : l.Waiting after.os sd vs
    same_type : after.type ≡ p.type
    same_sd : after.sd ≡ p.sd

  handler_round-Served :
      (fd : ℕ) (xs : List Read) (vs : List Visit) (fuel : ℕ) (p : ProcMsgTcp net)
      → p.type ≡ server
      → p.sd ≡ some sd
      → l.Waiting p.os sd ((fd, xs) ∷ vs)
      → length xs < fuel
      → Served xs vs fuel p
  unfolding handler_round
  handler_round-Served fd xs vs fuel p role at w enough =
      let (os, e, t) = l.accepts p.os sd fd xs vs w in
      let s =
        receive_loop-Spoke fd xs vs fuel (record p { client_sd = some fd; os = os }) role refl t
          enough in
      let taken : net.accept p.os p.sd ≡ (some fd, os) = ap (net.accept p.os) at ∙ e in
      let closed : net.close s.after.os s.after.client_sd ≡ net.close s.after.os (some fd) =
        ap (net.close s.after.os) s.same_client in
      record {
        after = record s.after { os = net.close s.after.os s.after.client_sd };
        gives =
            ap
              (λ r.
                if is_server r
                then serve_client fuel p (net.accept p.os p.sd)
                else receive_loop fuel p)
              role
            ∙ ap (serve_client fuel p) taken
            ∙ ap close_client s.gives;
        waiting = rw closed (l.closes s.after.os sd fd s.left vs s.talking);
        same_type = s.same_type;
        same_sd = s.same_sd;
      }

  -- The thread of a server at whose listening socket some connections wait: in as many rounds as there
  -- are connections, with more fuel than each of them has reads, `handler_parser` is called for the
  -- messages of each connection, in the order in which the connections are accepted and the messages
  -- are read, up to the first message of the connection that is older than a second when it is read.
  -- No connection waits then, and all were closed.
  pub handler-accepted :
      (want : ℕ) (vs : List Visit) (fuel : ℕ) (p : ProcMsgTcp net)
      → p.type ≡ server
      → p.sd ≡ some sd
      → l.Waiting p.os sd vs
      → All (λ v. length v.1 < fuel) vs
      → (q : ProcMsgTcp net) × (handler fuel (length vs) (handler_start p want)
          ≡ some (all_accepted vs, q))
        × l.Waiting q.os sd []
  unfolding handler_start handler
  handler-accepted want vs fuel p = run vs (record p { msgtype_get = want })
    where
      run :
          (vs : List Visit) (p : ProcMsgTcp net)
          → p.type ≡ server
          → p.sd ≡ some sd
          → l.Waiting p.os sd vs
          → All (λ v. length v.1 < fuel) vs
          → (q : ProcMsgTcp net) × (handler fuel (length vs) p ≡ some (all_accepted vs, q))
            × l.Waiting q.os sd []
      run [] p role at w enough = (p, refl, w)
      run ((fd, xs) ∷ vs) p role at w enough =
          let s = handler_round-Served fd xs vs fuel p role at w enough.0 in
          let (q, runs, empty) =
            run vs s.after (s.same_type ∙ role) (s.same_sd ∙ at) s.waiting enough.1 in
          (
            q,
            ap (go_on (handler fuel (length vs))) s.gives ∙ ap (calls_before (accepted xs)) runs,
            empty,
          )
