-- ===== src/Messages/Types.antt =====
-- The class `pm` of src/proc_msg.h, and what it calls of the operating system.
use libhelp.Base.{
  c_string, ℕ, ◌-◌, Bool, Option, ◌++◌, Bytes, leb, length, take, replicate, if◌then◌else◌, ℤ,
}

-- `PM_MESSAGE_SIZE`
abbrev pub message_size : ℕ
message_size = 10000

-- `sizeof(time_t)`, the bytes of `time_send` that stand before the text
abbrev pub time_size : ℕ
time_size = 8

-- `PM_TYPE_SERVER` and `PM_TYPE_CLIENT`, and 0 before any connection
pub data Role : Type 0 where
  unset : Role
  server : Role
  client : Role

-- `struct proc_msg_s`; `type` is a `long`, positive here
pub record ProcMsg : Type 0 where
  pub type : ℕ
  pub time_send : ℕ
  pub text : Bytes

-- the `mtext` of a message of the queue: what stands behind `type`, of which the call names a size
pub record Payload : Type 0 where
  pub time_send : ℕ
  pub text : Bytes

-- `struct sockaddr_in`: the address and the port
abbrev pub Address : Type 0
Address = ℕ × ℕ

-- The operating system. A call that returns an identifier gives `none` for -1.
pub record System : Type 1 where
  pub Os : Type 0
  pub time : Os → ℕ
  -- `open(name, O_WRONLY | O_CREAT, 0)` and `close`
  pub touch : Os → Bytes → Bool × Os
  pub unlink : Os → Bytes → Os
  pub ftok : Os → Bytes → ℕ → Option ℕ
  -- the Boolean is `IPC_CREAT`
  pub msgget : Os → ℕ → Bool → Option ℕ × Os
  -- whether 0 is returned
  pub msgsnd : Os → ℕ → ℕ → Payload → Bool × Os
  -- the type asked for; the type received with the message
  pub msgrcv : Os → ℕ → ℕ → Option (ℕ × Payload) × Os
  -- `msgctl(id, IPC_RMID, NULL)`
  pub msg_remove : Os → ℕ → Os
  pub socket : Os → Option ℕ × Os
  pub inet_aton : Bytes → Option ℕ
  pub bind : Os → ℕ → Address → Bool × Os
  pub sendto : Os → ℕ → Address → ProcMsg → ℤ × Os
  -- a whole message, and where it came from
  pub recvfrom : Os → ℕ → Option (ProcMsg × Address) × Os
  pub close : Os → ℕ → Os

-- the fields of `pm`, and the operating system
pub record Pm (sys : System) : Type 0 where
  pub os : sys.Os
  pub comm_type : Bytes
  pub type : Role
  pub msgtype_get : ℕ
  pub mq_id : ℕ
  pub file_name : Bytes
  pub sd : ℕ
  pub server_isa : Address
  pub client_isa : Address
  pub pmsg : ProcMsg

-- bytes with zeros behind them, up to a size
unfoldable pub pad : ℕ → Bytes → Bytes
pad size s = s ++ replicate (size - length s) 0

-- `memset(text, 0, PM_MESSAGE_SIZE)`, and `strncpy` of at most `msg_size` bytes, or of at most
-- `PM_MESSAGE_SIZE` if that is less
unfoldable pub fill_text : Bytes → ℕ → Bytes
unfolding c_string pad
fill_text msg msg_size =
    if leb msg_size message_size
    then pad message_size (take msg_size (c_string msg))
    else pad message_size (take message_size (c_string msg))
