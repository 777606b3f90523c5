-- ===== src/Messages/Reply.antt =====
-- The two ends of src/proc_msg_udp.cpp, and `pm_init` of src/proc_msg.cpp.
use libhelp.Base.{
  ℕ, ◌≡◌, ◌%◌, ◌^◌, refl, sym, subst, false, Bool-cases, inl, inr, some, Bytes, bytes_eq,
  bytes_eq_iff, c_string, ℤ,
}
use libhelp.Messages.Types.{message_size, ProcMsg, Address, System, Pm, pad}
use libhelp.Messages.Udp.{message_bytes}
use libhelp.Messages.Pm.{pm_queue, pm_zmq, pm_init, pm_send_str, pm_recv}

-- the message of a string at a time
abbrev pub message_of : ℕ → ℕ → Bytes → ProcMsg
message_of now t s = record { type = t; time_send = now; text = pad message_size s }

module _ {sys : System} where
  -- `pm_init` returns false for every kind of transport, and sets it all the same.
  pub pm_init-false :
      (p : Pm sys) (comm_type : Bytes)
      → ((pm_init p comm_type).0 ≡ false) × ((pm_init p comm_type).1.comm_type ≡ comm_type)
  unfolding pm_init
  pm_init-false p comm_type = elim (Bool-cases (bytes_eq comm_type pm_queue)) [
    | inr h ↦ rw h (refl, refl)
    | inl h ↦
        let other : bytes_eq comm_type pm_zmq ≡ false =
          subst (λ c. bytes_eq c pm_zmq ≡ false) (sym ((bytes_eq_iff comm_type pm_queue).0 h))
            refl in
        rw h (rw other (refl, refl))
  ]

  -- the result of sending it to an address
  abbrev pub sent_to : Pm sys → Address → ProcMsg → ℤ × Pm sys
  sent_to p to m = let (sent, os) = sys.sendto p.os p.sd to m in (sent, record p { os = os })

  -- A server that hears a string from an address, and answers.
  pub record Answers (q : Pm sys) (t : ℕ) (s : Bytes) (from : Address) (t' : ℕ) (s' : Bytes)
      : Type 0 where
    pub buffer : Bytes
    pub after : Pm sys
    pub returns : pm_recv q ≡ (some (t % 2 ^ 32, message_bytes, buffer), after)
    pub text : c_string buffer ≡ s
    pub reply : pm_send_str after t' s' ≡ sent_to after from (message_of (sys.time after.os) t' s')
