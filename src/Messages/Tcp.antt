-- ===== src/Messages/Tcp.antt =====
-- src/proc_msg_tcp.cpp and src/proc_msg_tcp.h: the class `ProcMsgTCP`, messages over TCP. Its base class
-- `ProcMsg` and the size of a text are not in the repository: of the base class the fields that the code
-- uses are modelled, and the size is a parameter.
pub mod Serve
pub mod Delivery
mod Tests
use libhelp.Base.{
  ℕ, zero, suc, ◌+◌, ◌-◌, ◌%◌, ◌^◌, Bool, true, false, Option, none, some, List, [], ◌∷◌, ◌++◌,
  Bytes, c_string, ltb, leb, length, take, if◌then◌else◌, ℤ,
}
use libhelp.Messages.Types.{Role, server, client, ProcMsg, Address, pad}
use libhelp.Messages.Queue.{is_server}

-- a descriptor, or -1
abbrev pub Fd : Type 0
Fd = Option ℕ

-- The operating system. `recv` gets the old contents of the message, and gives the number of bytes with
-- the new contents, or nothing if that number is not above 0.
pub record Network : Type 1 where
  pub Os : Type 0
  pub time : Os → ℕ
  pub socket : Os → Fd × Os
  pub inet_aton : Bytes → Option ℕ
  pub connect : Os → Fd → Address → Bool × Os
  pub bind : Os → Fd → Address → Bool × Os
  pub listen : Os → Fd → ℕ → Bool × Os
  pub accept : Os → Fd → Fd × Os
  pub send : Os → Fd → ProcMsg → ℤ × Os
  pub recv : Os → Fd → ProcMsg → Option (ℕ × ProcMsg) × Os
  pub close : Os → Fd → Os

-- the fields of `ProcMsgTCP` that are used, and the operating system
pub record ProcMsgTcp (net : Network) : Type 0 where
  pub os : net.Os
  pub type : Role
  pub msgtype_get : ℕ
  pub master_isa : Address
  pub sd : Fd
  pub client_sd : Fd
  pub pmsg : ProcMsg

-- what `handler_parser` gets: the bits of an `int`, the number of bytes, and the buffer
abbrev pub ParserCall : Type 0
ParserCall = ℕ × ℕ × Bytes

-- `PROC_MSG_MESSAGE_SIZE` is `size`; `held` is what the stack holds where `time_send` is, which is not set
unfoldable pub message : ℕ → ℕ → ℕ → Bytes → ℕ → ProcMsg
unfolding pad
message size held type msg msg_size = record {
  type = type;
  time_send = held;
  text = pad size (take (if leb msg_size size then msg_size else size) (c_string msg));
}

-- the calls, and the object when a loop is left; `none` is without fuel
abbrev pub Ran : Network → Type 0
Ran net = Option (List ParserCall × ProcMsgTcp net)

module _ {net : Network} where
  -- `socket`, `inet_aton`, and what follows them; the port is a `uint16_t`
  abbrev socket_at :
      ProcMsgTcp net → Bytes → ℕ → (ProcMsgTcp net → Bool × ProcMsgTcp net) → Bool × ProcMsgTcp net
  socket_at p ip port next =
      let (sd, os) = net.socket p.os in
      let q : ProcMsgTcp net = record p { sd = sd; os = os } in
      elim sd [
        | none ↦ (false, q)
        | some _ ↦ elim (net.inet_aton ip) [
          | none ↦ (false, record q { master_isa = (0, port % 2 ^ 16) })
          | some addr ↦ next (record q { master_isa = (addr, port % 2 ^ 16) })
        ]
      ]

  unfoldable pub connect : ProcMsgTcp net → Bytes → ℕ → Bool × ProcMsgTcp net
  connect p ip port =
      socket_at (record p { type = client }) ip port
        (λ q. let (done, os) = net.connect q.os q.sd q.master_isa in (done, record q { os = os }))

  unfoldable pub create : ProcMsgTcp net → Bytes → ℕ → Bool × ProcMsgTcp net
  create p ip port =
      socket_at (record p { type = server }) ip port
        (λ q.
          let (bound, os) = net.bind q.os q.sd q.master_isa in
          if bound
          then (let (listens, os') = net.listen os q.sd 1 in (listens, record q { os = os' }))
          else (false, record q { os = os }))

  -- A server sends on the socket that it listens on.
  unfoldable pub send : ℕ → ℕ → ProcMsgTcp net → ℕ → Bytes → ℕ → ℤ × ProcMsgTcp net
  unfolding message
  send size held p type msg msg_size =
      let (sent, os) = net.send p.os p.sd (message size held type msg msg_size) in
      (sent, record p { os = os })

  -- `send(type, msg, strlen(msg))`
  unfoldable pub send_str : ℕ → ℕ → ProcMsgTcp net → ℕ → Bytes → ℤ × ProcMsgTcp net
  unfolding send
  send_str size held p type msg = send size held p type msg (length (c_string msg))

  -- the tests of the result of `::recv`
  abbrev pub take_message :
      ProcMsgTcp net → Option (ℕ × ProcMsg) × net.Os → Option ParserCall × ProcMsgTcp net
  take_message p (none, os) = (none, record p { os = os })
  take_message p (some (ret, m), os) = (
    if ltb 1 (net.time os - m.time_send) then none else some (m.type % 2 ^ 32, ret, m.text),
    record p { os = os; pmsg = m },
  )

  -- `none` is `NULL`
  unfoldable pub recv : ProcMsgTcp net → Option ParserCall × ProcMsgTcp net
  recv p = take_message p (net.recv p.os (if is_server p.type then p.client_sd else p.sd) p.pmsg)

  unfoldable pub close : ProcMsgTcp net → ProcMsgTcp net
  close p = record p { os = net.close p.os p.sd }

  -- before the thread starts
  unfoldable pub handler_start : ProcMsgTcp net → ℕ → ProcMsgTcp net
  handler_start p msgtype_get = record p { msgtype_get = msgtype_get }

  -- the calls in front of those that follow
  abbrev pub calls_before : List ParserCall → Ran net → Ran net
  calls_before calls none = none
  calls_before calls (some (more, p)) = some (calls ++ more, p)

  -- the test of `data`, and on with the loop
  abbrev pub parse_on : (ProcMsgTcp net → Ran net) → Option ParserCall × ProcMsgTcp net → Ran net
  parse_on more (none, p) = some ([], p)
  parse_on more (some call, p) = calls_before (call ∷ []) (more p)

  -- the inner loop, up to the first `NULL`, and the calls of the parser; `fuel` bounds the rounds
  unfoldable pub receive_loop : ℕ → ProcMsgTcp net → Ran net
  receive_loop zero p = none
  receive_loop (suc fuel) p = parse_on (λ q. receive_loop fuel q) (recv p)

  -- `::close(this->client_sd)`
  abbrev pub close_client : Ran net → Ran net
  close_client none = none
  close_client (some (calls, p)) = some (calls, record p { os = net.close p.os p.client_sd })

  -- the test of what `accept` returned
  abbrev pub serve_client : ℕ → ProcMsgTcp net → Fd × net.Os → Ran net
  serve_client fuel p (none, os) = some ([], record p { client_sd = none; os = os })
  serve_client fuel p (some fd, os) =
      close_client (receive_loop fuel (record p { client_sd = some fd; os = os }))

  -- one round of the outer loop
  unfoldable pub handler_round : ℕ → ProcMsgTcp net → Ran net
  handler_round fuel p =
      if is_server p.type then serve_client fuel p (net.accept p.os p.sd) else receive_loop fuel p

  -- what follows a round
  abbrev pub go_on : (ProcMsgTcp net → Ran net) → Ran net → Ran net
  go_on more none = none
  go_on more (some (calls, p)) = calls_before calls (more p)

  -- so many rounds of the outer loop
  unfoldable pub handler : ℕ → ℕ → ProcMsgTcp net → Ran net
  handler fuel zero p = some ([], p)
  handler fuel (suc rounds) p = go_on (λ q. handler fuel rounds q) (handler_round fuel p)
