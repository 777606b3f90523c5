-- ===== src/Messages/Tests.antt =====
-- Messages of src/proc_msg.cpp over a system with one queue and one socket.
use libhelp.Base.{
  c_string, ℕ, ◌≡◌, refl, ap, sym, arith, true, none, some, Bytes, Option, List, [], ◌∷◌, ◌++◌,
  codes, pos,
}
use libhelp.Messages.Types.{pad, server, client, unset, ProcMsg, Payload, Address, System, Pm}
use libhelp.Messages.Pm.{pm_queue, pm_udp, pm_recv, pm_connect, pm_send_str, pm_send}
use libhelp.Messages.Queue.{pm_send_queue, pm_recv_queue}
use libhelp.Messages.Udp.{pm_connect_udp}
use libhelp.Messages.Mailbox.{
  pick, IsQueue, Letter, IsLetter, post_all, Holds, pm_send_str-Holds, Delivers, pm_recv-Delivers,
}
use libhelp.Messages.Handler.{
  Call, reads, Handled, pm_handler, pm_handler_start, pm_handler-Handled,
}
use libhelp.Messages.Reply.{message_of}

record Machine : Type 0 where
  now : ℕ
  queue : List (ℕ × Payload)
  heard : Option (ProcMsg × Address)

-- behind a `msgrcv` that looked at the queue
abbrev taken :
    Machine → Option ((ℕ × Payload) × List (ℕ × Payload)) → Option (ℕ × Payload) × Machine
taken os none = (none, os)
taken os (some (e, rest)) = (some e, record os { queue = rest })

abbrev system : System
system = record {
  Os = Machine;
  time = λ os. os.now;
  touch = λ os name. (true, os);
  unlink = λ os name. os;
  ftok = λ os name id. some id;
  msgget = λ os key create. (some 7, os);
  msgsnd = λ os id t m. (true, record os { queue = os.queue ++ ((t, m) ∷ []) });
  msgrcv = λ os id want. taken os (pick want os.queue);
  msg_remove = λ os id. record os { queue = [] };
  socket = λ os. (some 3, os);
  inet_aton = λ ip. some 2130706433;
  bind = λ os sd to. (true, os);
  sendto = λ os sd to m. (pos 10016, os);
  recvfrom = λ os sd. (os.heard, record os { heard = none });
  close = λ os sd. os;
}

system-IsQueue : IsQueue system 7
system-IsQueue = record {
  holds = λ os. os.queue;
  snd = λ os os' t m e. ap (λ r. r.1.queue) (sym e);
  rcv = λ os want e rest h. (ap (λ r. (taken os r).0) h, ap (λ r. (taken os r).1.queue) h);
}

abbrev letters : List (ℕ × Letter)
letters =
    (4096, record { sent_at = 100; text = codes "first" })
    ∷ (4097, record { sent_at = 101; text = codes "second" })
    ∷ []

abbrev blank_message : ProcMsg
blank_message = record { type = 0; time_send = 0; text = [] }

abbrev peer : Pm system
peer = record {
  os = record { now = 102; queue = post_all letters; heard = none };
  comm_type = pm_queue;
  type = client;
  msgtype_get = 4097;
  mq_id = 7;
  file_name = codes "/tmp/key";
  sd = 0;
  server_isa = (0, 0);
  client_isa = (0, 0);
  pmsg = blank_message;
}

pm_send_str-Holds_example :
    Holds 7 system-IsQueue
      (pm_send_str peer 4096 (codes "third")).1.os
      (letters ++ ((4096, record { sent_at = 102; text = codes "third" }) ∷ []))
unfolding pm_send_str system-IsQueue pm_send pm_send_queue
pm_send_str-Holds_example =
    pm_send_str-Holds 7 system-IsQueue peer 4096 (codes "third") letters refl refl
      (refl, (refl, (refl, (refl, (refl, tt))))) (omega arith) refl refl

second-IsLetter : IsLetter (record { sent_at = 101; text = codes "second" })
second-IsLetter = record {
  no_nul = (refl, (refl, (refl, (refl, (refl, (refl, tt))))));
  short = omega arith;
}

-- the receiver asks for a type, and gets the second letter
pm_recv-Delivers_example :
    Delivers 7 system-IsQueue peer 4097
      (record { sent_at = 101; text = codes "second" })
      ((4096, record { sent_at = 100; text = codes "first" }) ∷ [])
unfolding pick system-IsQueue
pm_recv-Delivers_example =
    pm_recv-Delivers 7 system-IsQueue peer 4097 (record { sent_at = 101; text = codes "second" })
      letters ((4096, record { sent_at = 100; text = codes "first" }) ∷ []) refl refl refl refl
      second-IsLetter

first-IsLetter : IsLetter (record { sent_at = 100; text = codes "first" })
first-IsLetter = record { no_nul = (refl, (refl, (refl, (refl, (refl, tt))))); short = omega arith }

-- the thread takes letters of all types
pm_handler-Handled_example :
    Handled
      (pm_handler_start peer 0)
      letters
      (pm_handler 2 (pm_handler_start peer 0)).0
      (pm_handler 2 (pm_handler_start peer 0)).1
    × Holds 7 system-IsQueue (pm_handler 2 (pm_handler_start peer 0)).1.os []
unfolding system-IsQueue
pm_handler-Handled_example =
    pm_handler-Handled 7 system-IsQueue peer 0 letters refl refl refl
      ((refl, first-IsLetter), ((refl, second-IsLetter), tt))

abbrev texts : List Call → List (Option (ℕ × Bytes))
texts [] = []
texts (c ∷ cs) = reads c ∷ texts cs

-- the first letter is two seconds old
heard : texts (pm_handler 2 (pm_handler_start peer 0)).0 ≡ none ∷ some (4097, codes "second") ∷ []
unfolding pm_handler pm_handler_start pm_recv pm_recv_queue pick c_string pad
heard = refl

abbrev listener : Pm system
listener = record peer {
  os = record { now = 102; queue = []; heard = some (message_of 101 4096 (codes "hi"), (5, 9090)) };
  comm_type = pm_udp;
  type = server;
}

connected : (pm_connect (record listener { type = unset }) (codes "127.0.0.1") 9090).0 ≡ true
unfolding pm_connect pm_connect_udp
connected = refl
