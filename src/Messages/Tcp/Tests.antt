-- ===== src/Messages/Tcp/Tests.antt =====
-- Runs of src/proc_msg_tcp.cpp in a small system.
use libhelp.Base.{
  ℕ, ◌≡◌, refl, ap, true, false, Option, none, some, List, [], ◌∷◌, Bytes, arith, codes, pos,
}
use libhelp.Messages.Tcp.{
  Network, ProcMsgTcp, connect, create, send_str, recv, handler, handler_start,
}
use libhelp.Messages.Tcp.Serve.{Read, Visit, IsListener, accepted, all_accepted, handler-accepted}
use libhelp.Messages.Types.{unset, server, ProcMsg}

-- the connections that wait, what is to be read from the current one, and the descriptors closed
record Machine : Type 0 where
  clock : ℕ
  waiting : List Visit
  reads : List Read
  closed : List ℕ

abbrev accept_next : Machine → List Visit → Option ℕ × Machine
accept_next os [] = (none, os)
accept_next os ((fd, xs) ∷ vs) = (some fd, record os { waiting = vs; reads = xs })

abbrev read_next : Machine → List Read → Option (ℕ × ProcMsg) × Machine
read_next os [] = (none, os)
read_next os ((t, n, m) ∷ xs) = (some (n, m), record os { clock = t; reads = xs })

abbrev close_fd : Machine → Option ℕ → Machine
close_fd os none = os
close_fd os (some fd) = record os { closed = fd ∷ os.closed }

abbrev net : Network
net = record {
  Os = Machine;
  time = λ os. os.clock;
  socket = λ os. (some 3, os);
  inet_aton = λ ip. some 2130706433;
  connect = λ os fd to. (true, os);
  bind = λ os fd to. (false, os);
  listen = λ os fd n. (true, os);
  accept = λ os fd. accept_next os os.waiting;
  send = λ os fd m. (pos 10016, record os { reads = (os.clock, 10016, m) ∷ [] });
  recv = λ os fd old. read_next os os.reads;
  close = close_fd;
}

net-IsListener : IsListener net
net-IsListener = record {
  Waiting = λ os sd vs. os.waiting ≡ vs;
  Talking = λ os sd fd xs vs. (os.reads ≡ xs) × (os.waiting ≡ vs);
  accepts = λ os sd fd xs vs w.
      (record os { waiting = vs; reads = xs }, ap (accept_next os) w, (refl, refl));
  receives = λ os sd fd t n m old xs vs w.
      (record os { clock = t; reads = xs }, ap (read_next os) w.0, refl, (refl, w.1));
  ends = λ os sd fd old vs w. (os, ap (read_next os) w.0, w);
  closes = λ os sd fd xs vs w. w.1;
}

abbrev letter : ℕ → Bytes → ProcMsg
letter at s = record { type = 1; time_send = at; text = s }

abbrev machine : Machine
machine = record {
  clock = 100;
  waiting =
      (4, (100, 12, letter 100 (codes "one")) ∷ (101, 12, letter 100 (codes "two")) ∷ [])
      ∷ (5, (102, 12, letter 90 (codes "old")) ∷ (102, 12, letter 102 (codes "new")) ∷ [])
      ∷ [];
  reads = [];
  closed = [];
}

abbrev tcp : ProcMsgTcp net
tcp = record {
  os = machine;
  type = server;
  msgtype_get = 0;
  master_isa = (0, 9090);
  sd = some 3;
  client_sd = some 0;
  pmsg = letter 0 [];
}

-- an address that is in use: the socket stays open
not_bound :
    create (record tcp { type = unset; sd = some 0 }) (codes "127.0.0.1") 9090
    ≡ (false, record tcp { master_isa = (2130706433, 9090) })
unfolding create
not_bound = refl

connected : (connect tcp (codes "127.0.0.1") 75536).1.master_isa ≡ (2130706433, 10000)
unfolding connect
connected = refl

-- the second connection is closed at its old message, and the new one behind it is lost
handler-accepted_example :
    (q : ProcMsgTcp net) × (handler 3 2 (handler_start tcp 0)
      ≡ some (all_accepted machine.waiting, q))
    × (q.os.waiting ≡ [])
unfolding net-IsListener
handler-accepted_example =
    handler-accepted net-IsListener 3 0 machine.waiting 3 tcp refl refl refl (omega arith)

got : all_accepted machine.waiting ≡ (1, 12, codes "one") ∷ (1, 12, codes "two") ∷ []
unfolding accepted
got = refl

-- so it is taken for old
lost :
    (recv (record tcp { client_sd = some 4; os = (send_str 10 0 tcp 1 (codes "hello")).1.os })).0
    ≡ none
unfolding recv send_str
lost = refl
