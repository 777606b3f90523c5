-- ===== src/Messages/Queue.antt =====
-- src/proc_msg_queue.cpp: messages over a System V queue.
use libhelp.Base.{
  ℕ, ◌-◌, ◌%◌, ◌^◌, Bool, true, false, not, Option, none, some, ◌++◌, Bytes, ltb, take, drop,
  length, if◌then◌else◌, ℤ, pos, negsuc,
}
use libhelp.Messages.Types.{
  message_size, time_size, Role, server, client, unset, ProcMsg, Payload, System, Pm, fill_text,
}

-- the bytes of the text that are sent: `msgsnd` gets `sizeof(text)` for what begins at `time_send`
abbrev pub sent_size : ℕ
sent_size = message_size - time_size

-- `this->type == PM_TYPE_SERVER`
abbrev pub is_server : Role → Bool
is_server server = true
is_server client = false
is_server unset = false

-- what `msgsnd` sends of a message
unfoldable pub payload : ProcMsg → Payload
payload m = record { time_send = m.time_send; text = take sent_size m.text }

-- what `msgrcv` leaves in a message: the bytes of the text behind those received stay
unfoldable pub received : ProcMsg → ℕ → Payload → ProcMsg
received old type got = record {
  type = type;
  time_send = got.time_send;
  text = got.text ++ drop (length got.text) old.text;
}

module _ {sys : System} where
  -- `msgget`, and the test of its result
  abbrev pub get_queue : Pm sys → ℕ → Bool → Bool × Pm sys
  get_queue p key create =
      let (id, os) = sys.msgget p.os key create in
      elim id [
        | none ↦ (false, record p { os = os })
        | some i ↦ (true, record p { os = os; mq_id = i })
      ]

  -- `ftok`, and what follows it
  abbrev pub find_queue : Pm sys → Bytes → ℕ → Bool → Bool × Pm sys
  find_queue p name proj_id create = elim (sys.ftok p.os name proj_id) [
    | none ↦ (false, p)
    | some key ↦ get_queue p key create
  ]

  unfoldable pub pm_connect_queue : Pm sys → Bytes → ℕ → Bool × Pm sys
  pm_connect_queue p name proj_id =
      find_queue (record p { file_name = name; type = client }) name proj_id false

  unfoldable pub pm_create_queue : Pm sys → Bytes → ℕ → Bool × Pm sys
  pm_create_queue p name proj_id =
      let (opened, os) = sys.touch p.os name in
      let q : Pm sys = record p { file_name = name; type = server; os = os } in
      if not opened then (false, q) else find_queue q name proj_id true

  unfoldable pub pm_close_queue : Pm sys → Pm sys
  pm_close_queue p =
      let os = sys.msg_remove p.os p.mq_id in
      record p { os = if is_server p.type then sys.unlink os p.file_name else os }

  unfoldable pub pm_send_queue : Pm sys → ℕ → Bytes → ℕ → ℤ × Pm sys
  unfolding fill_text payload
  pm_send_queue p type msg msg_size =
      let m : ProcMsg = record {
        type = type;
        time_send = sys.time p.os;
        text = fill_text msg msg_size;
      } in
      let (sent, os) = sys.msgsnd p.os p.mq_id type (payload m) in
      (if sent then pos 0 else negsuc 0, record p { os = os })

  -- behind a `msgrcv` that got something; `*msg_type` is an `int`, here its 32 bits
  abbrev pub check_age : Pm sys → Option (ℕ × ℕ × Bytes) × Pm sys
  check_age p =
      if ltb 1 (sys.time p.os - p.pmsg.time_send)
      then (none, p)
      else (some (p.pmsg.type % 2 ^ 32, message_size, p.pmsg.text), p)

  -- The type, the size and the text, or `none` for `NULL`. `msgrcv` returns the bytes received
  -- behind the type, which are `PM_MESSAGE_SIZE`, since every message is sent with that size.
  unfoldable pub pm_recv_queue : Pm sys → Option (ℕ × ℕ × Bytes) × Pm sys
  unfolding received
  pm_recv_queue p =
      let (got, os) = sys.msgrcv p.os p.mq_id p.msgtype_get in
      elim got [
        | none ↦ (none, record p { os = os })
        | some (type, m) ↦ check_age (record p { os = os; pmsg = received p.pmsg type m })
      ]
