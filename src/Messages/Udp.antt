-- ===== src/Messages/Udp.antt =====
-- src/proc_msg_udp.cpp: messages over UDP.
use libhelp.Base.{ℕ, ◌%◌, ◌^◌, Bool, true, false, Option, none, some, Bytes, if◌then◌else◌, ℤ}
use libhelp.Messages.Types.{server, client, ProcMsg, System, Pm, fill_text}
use libhelp.Messages.Queue.{is_server}

-- `sizeof(pm::proc_msg_s)`: the type, the time and the text
abbrev pub message_bytes : ℕ
message_bytes = 10016

module _ {sys : System} where
  -- behind the address is set: nothing for a client, and `bind` for a server
  abbrev pub bind_server : Pm sys → Bool × Pm sys
  bind_server p = let (bound, os) = sys.bind p.os p.sd p.server_isa in (bound, record p { os = os })

  -- `inet_aton`, and what follows it; the port is a `uint16_t`
  abbrev pub set_address : Pm sys → Bytes → ℕ → (Pm sys → Bool × Pm sys) → Bool × Pm sys
  set_address p ip port next = elim (sys.inet_aton ip) [
    | none ↦ (false, record p { server_isa = (0, port % 2 ^ 16) })
    | some addr ↦ next (record p { server_isa = (addr, port % 2 ^ 16) })
  ]

  -- `socket`, and what follows it
  abbrev pub open_socket : Pm sys → (Pm sys → Bool × Pm sys) → Bool × Pm sys
  open_socket p next =
      let (sd, os) = sys.socket p.os in
      elim sd [
        | none ↦ (false, record p { os = os })
        | some d ↦ next (record p { os = os; sd = d })
      ]

  unfoldable pub pm_connect_udp : Pm sys → Bytes → ℕ → Bool × Pm sys
  pm_connect_udp p ip port =
      open_socket (record p { type = client }) (λ q. set_address q ip port (λ r. (true, r)))

  unfoldable pub pm_create_udp : Pm sys → Bytes → ℕ → Bool × Pm sys
  pm_create_udp p ip port =
      open_socket (record p { type = server }) (λ q. set_address q ip port bind_server)

  -- A server sends to the client that it heard from last.
  unfoldable pub pm_send_udp : Pm sys → ℕ → Bytes → ℕ → ℤ × Pm sys
  unfolding fill_text
  pm_send_udp p type msg msg_size =
      let m : ProcMsg = record {
        type = type;
        time_send = sys.time p.os;
        text = fill_text msg msg_size;
      } in
      let to = if is_server p.type then p.client_isa else p.server_isa in
      let (sent, os) = sys.sendto p.os p.sd to m in (sent, record p { os = os })

  -- A client takes the sender for its server. `*msg_type` is an `int`, here its 32 bits.
  unfoldable pub pm_recv_udp : Pm sys → Option (ℕ × ℕ × Bytes) × Pm sys
  pm_recv_udp p =
      let (got, os) = sys.recvfrom p.os p.sd in
      elim got [
        | none ↦ (none, record p { os = os })
        | some (m, from) ↦ (
          some (m.type % 2 ^ 32, message_bytes, m.text),
          if is_server p.type
              then record p { os = os; pmsg = m; client_isa = from }
              else record p { os = os; pmsg = m; server_isa = from },
        )
      ]

  unfoldable pub pm_close_udp : Pm sys → Pm sys
  pm_close_udp p = record p { os = sys.close p.os p.sd }
