-- ===== src/Messages/Pm.antt =====
-- src/proc_msg.cpp: the choice of the transport by `comm_type`.
use libhelp.Base.{
  c_string, ℕ, Bool, true, false, not, ◌||◌, Option, none, Bytes, codes, bytes_eq, length,
  if◌then◌else◌, ℤ, negsuc,
}
use libhelp.Messages.Types.{System, Pm}
use libhelp.Messages.Queue.{
  pm_connect_queue, pm_create_queue, pm_close_queue, pm_send_queue, pm_recv_queue,
}
use libhelp.Messages.Udp.{pm_connect_udp, pm_create_udp, pm_close_udp, pm_send_udp, pm_recv_udp}

abbrev pub pm_queue : Bytes
pm_queue = codes "queue"

abbrev pub pm_zmq : Bytes
pm_zmq = codes "zmq"

abbrev pub pm_udp : Bytes
pm_udp = codes "udp"

module _ {sys : System} where
  unfoldable pub pm_init : Pm sys → Bytes → Bool × Pm sys
  unfolding bytes_eq
  pm_init p comm_type =
      let q = record p { comm_type = comm_type } in
      if not (bytes_eq comm_type pm_queue)
        || not (bytes_eq comm_type pm_zmq)
        || not (bytes_eq comm_type pm_udp)
      then (false, q)
      else (true, q)

  -- `pm_connect` with a name and a number
  unfoldable pub pm_connect : Pm sys → Bytes → ℕ → Bool × Pm sys
  unfolding bytes_eq
  pm_connect p name proj_id =
      if bytes_eq p.comm_type pm_queue
      then pm_connect_queue p name proj_id
      else if bytes_eq p.comm_type pm_udp
      then pm_connect_udp p name proj_id
      else (false, p)

  -- `pm_create` with a name and a number
  unfoldable pub pm_create : Pm sys → Bytes → ℕ → Bool × Pm sys
  unfolding bytes_eq
  pm_create p name proj_id =
      if bytes_eq p.comm_type pm_queue
      then pm_create_queue p name proj_id
      else if bytes_eq p.comm_type pm_udp
      then pm_create_udp p name proj_id
      else (false, p)

  unfoldable pub pm_close : Pm sys → Pm sys
  unfolding bytes_eq
  pm_close p =
      if bytes_eq p.comm_type pm_queue
      then pm_close_queue p
      else if bytes_eq p.comm_type pm_zmq
      then p
      else if bytes_eq p.comm_type pm_udp
      then pm_close_udp p
      else p

  -- `pm_send` with a size; -2 without a transport
  unfoldable pub pm_send : Pm sys → ℕ → Bytes → ℕ → ℤ × Pm sys
  unfolding bytes_eq
  pm_send p type msg msg_size =
      if bytes_eq p.comm_type pm_queue
      then pm_send_queue p type msg msg_size
      else if bytes_eq p.comm_type pm_zmq
      then (negsuc 1, p)
      else if bytes_eq p.comm_type pm_udp
      then pm_send_udp p type msg msg_size
      else (negsuc 1, p)

  -- `pm_send` of a C string
  unfoldable pub pm_send_str : Pm sys → ℕ → Bytes → ℤ × Pm sys
  unfolding c_string
  pm_send_str p type msg = pm_send p type msg (length (c_string msg))

  unfoldable pub pm_recv : Pm sys → Option (ℕ × ℕ × Bytes) × Pm sys
  unfolding bytes_eq
  pm_recv p =
      if bytes_eq p.comm_type pm_queue
      then pm_recv_queue p
      else if bytes_eq p.comm_type pm_zmq
      then (none, p)
      else if bytes_eq p.comm_type pm_udp
      then pm_recv_udp p
      else (none, p)
