-- ===== src/Messages/Tcp/Delivery.antt =====
-- A string over TCP, from `send` to `recv` of src/proc_msg_tcp.cpp.
use libhelp.Base.{ℕ, ◌≡◌, some}
use libhelp.Messages.Tcp.{Network, Fd, recv}
use libhelp.Messages.Types.{ProcMsg}

-- A message that is sent on `from` is read whole by the next `recv` on `to`.
pub record IsPipe (net : Network) (from to : Fd) : Type 0 where
  pub arrives :
      (os : net.Os) (m old : ProcMsg)
      → (n : ℕ) × (os' : net.Os) × (net.recv (net.send os from m).1 to old ≡ (some (n, m), os'))
