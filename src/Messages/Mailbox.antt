-- ===== src/Messages/Mailbox.antt =====
-- A message queue under `pm_send` and `pm_recv` of src/proc_msg.cpp, against a mailbox of letters.
use libhelp.Base.{
  NulFree, c_string_stop, c_string-NulFree, bytes_eq, bytes_eq_refl, ℕ, ◌-◌, ◌%◌, ◌^◌, ◌<◌, ◌≡◌,
  refl, ap, sym, ◌∙◌, subst, arith, true, ◌||◌, Bool-cases, inl, inr, Option, none, some, List, [],
  ◌∷◌, ◌++◌, append_assoc, Bytes, ◌==◌, c_string, length, take, replicate, if◌then◌else◌, ltb, pos,
  negsuc,
}
use libhelp.Messages.Types.{message_size, Payload, System, Pm, pad, fill_text}
use libhelp.Messages.Queue.{sent_size, payload, received, pm_send_queue, pm_recv_queue}
use libhelp.Messages.Pm.{pm_queue, pm_send_str, pm_send, pm_recv}
use libhelp.Messages.Text.{take-pad, fill_text-NulFree}

-- an entry that stays before those that stay behind it
abbrev pub stay {ℓ} :
    {A : Type ℓ} → ℕ × A → Option ((ℕ × A) × List (ℕ × A)) → Option ((ℕ × A) × List (ℕ × A))
stay x none = none
stay x (some (e, left)) = some (e, x ∷ left)

-- the first entry that a receiver of a type takes, 0 being any, and the entries that stay
unfoldable pub pick {ℓ} : {A : Type ℓ} → ℕ → List (ℕ × A) → Option ((ℕ × A) × List (ℕ × A))
pick want [] = none
pick want ((t, a) ∷ rest) =
    let further = stay (t, a) (pick want rest) in
    if want == 0 || want == t then some ((t, a), rest) else further

-- What is documented of a queue: `msgsnd` adds a message behind the others, and `msgrcv` takes the
-- first one of the type asked for, or the first one of all for the type 0.
pub record IsQueue (sys : System) (id : ℕ) : Type 0 where
  pub holds : sys.Os → List (ℕ × Payload)
  pub snd :
      (os os' : sys.Os) (t : ℕ) (m : Payload)
      → sys.msgsnd os id t m ≡ (true, os')
      → holds os' ≡ holds os ++ ((t, m) ∷ [])
  pub rcv :
      (os : sys.Os) (want : ℕ) (e : ℕ × Payload) (rest : List (ℕ × Payload))
      → pick want (holds os) ≡ some (e, rest)
      → ((sys.msgrcv os id want).0 ≡ some e) × (holds (sys.msgrcv os id want).1 ≡ rest)

-- what a sender means: a time and a string
pub record Letter : Type 0 where
  pub sent_at : ℕ
  pub text : Bytes

-- a string that is sent whole, with a NUL behind it
pub record IsLetter (l : Letter) : Type 0 where
  pub no_nul : NulFree l.text
  pub short : length l.text < sent_size

abbrev pub post : ℕ × Letter → ℕ × Payload
post (t, l) = (t, record { time_send = l.sent_at; text = take sent_size (pad message_size l.text) })

abbrev pub post_all : List (ℕ × Letter) → List (ℕ × Payload)
post_all [] = []
post_all (e ∷ rest) = post e ∷ post_all rest

post_all-append :
    (xs : List (ℕ × Letter)) (e : ℕ × Letter)
    → post_all xs ++ (post e ∷ []) ≡ post_all (xs ++ (e ∷ []))
post_all-append [] e = refl
post_all-append (x ∷ xs) e = ap (◌∷◌ (post x)) (post_all-append xs e)

abbrev posted :
    Option ((ℕ × Letter) × List (ℕ × Letter)) → Option ((ℕ × Payload) × List (ℕ × Payload))
posted none = none
posted (some (e, rest)) = some (post e, post_all rest)

stay-posted :
    (x : ℕ × Letter) (r : Option ((ℕ × Letter) × List (ℕ × Letter)))
    → stay (post x) (posted r) ≡ posted (stay x r)
stay-posted x none = refl
stay-posted x (some (e, left)) = refl

pick-post_all :
    (want : ℕ) (xs : List (ℕ × Letter)) → pick want (post_all xs) ≡ posted (pick want xs)
unfolding pick
pick-post_all want [] = refl
pick-post_all want ((t, l) ∷ xs) = elim (Bool-cases (want == 0 || want == t)) [
  | inl h ↦ rw h refl
  | inr h ↦
      rw h (ap (stay (post (t, l))) (pick-post_all want xs) ∙ stay-posted (t, l) (pick want xs))
]

letter-text :
    (l : Letter) (old : Bytes)
    → IsLetter l
    → c_string (take sent_size (pad message_size l.text) ++ old) ≡ l.text
letter-text l old h =
    let k = sent_size - length l.text - 1 in
    ap (λ b. c_string (b ++ old))
      (take-pad sent_size message_size k l.text (omega (arith, h.short)) (omega arith))
    ∙ ap c_string (append_assoc l.text (0 ∷ replicate k 0) old)
    ∙ c_string_stop l.text (replicate k 0 ++ old) h.no_nul

module _ {sys : System} (id : ℕ) (queue : IsQueue sys id) where
  queue_comm : (p : Pm sys) → p.comm_type ≡ pm_queue → bytes_eq p.comm_type pm_queue ≡ true
  queue_comm p comm = ap (λ c. bytes_eq c pm_queue) comm ∙ bytes_eq_refl pm_queue

  -- The operating system holds the letters of a mailbox in the queue.
  abbrev pub Holds : sys.Os → List (ℕ × Letter) → Type 0
  Holds os xs = queue.holds os ≡ post_all xs

  send_queue-Holds :
      (p : Pm sys) (t : ℕ) (s : Bytes) (xs : List (ℕ × Letter))
      → p.mq_id ≡ id
      → NulFree s
      → length s < sent_size
      → Holds p.os xs
      → (pm_send_queue p t s (length s)).0 ≡ pos 0
      → Holds
          (pm_send_queue p t s (length s)).1.os
          (xs ++ ((t, record { sent_at = sys.time p.os; text = s }) ∷ []))
  unfolding pm_send_queue payload
  send_queue-Holds p t s xs at free short holds e =
      let l : Letter = record { sent_at = sys.time p.os; text = s } in
      let m : Payload = record {
        time_send = sys.time p.os;
        text = take sent_size (fill_text s (length s));
      } in
      let same : (t, m) ≡ post (t, l) =
        ap (λ b. (t, record { time_send = sys.time p.os; text = take sent_size b }))
          (fill_text-NulFree s free (omega (arith, short))) in
      let r = sys.msgsnd p.os p.mq_id t m in
      elim (Bool-cases r.0) [
        | inl h ↦
            let sent : sys.msgsnd p.os id t m ≡ (true, r.1) =
              ap (λ i. sys.msgsnd p.os i t m) (sym at) ∙ ap (λ b. (b, r.1)) h in
            queue.snd p.os r.1 t m sent
            ∙ ap (◌++ ((t, m) ∷ [])) holds
            ∙ ap (λ n. post_all xs ++ (n ∷ [])) same
            ∙ post_all-append xs (t, l)
        | inr h ↦ let failed : negsuc 0 ≡ pos 0 = rw h at e in absurd cc
      ]

  -- When `pm_send` of a string over a queue returns 0, the mailbox has the letter behind the others.
  -- The string has no NUL and fewer than 9992 bytes.
  pub pm_send_str-Holds :
      (p : Pm sys) (t : ℕ) (s : Bytes) (xs : List (ℕ × Letter))
      → p.comm_type ≡ pm_queue
      → p.mq_id ≡ id
      → NulFree s
      → length s < sent_size
      → Holds p.os xs
      → (pm_send_str p t s).0 ≡ pos 0
      → Holds
          (pm_send_str p t s).1.os
          (xs ++ ((t, record { sent_at = sys.time p.os; text = s }) ∷ []))
  unfolding pm_send_str pm_send
  pm_send_str-Holds p t s xs comm at free short holds e =
      let over : pm_send_str p t s ≡ pm_send_queue p t s (length s) =
        rw (queue_comm p comm)
          (ap (λ w. pm_send_queue p t s (length w)) (c_string-NulFree s free)) in
      subst (λ r. Holds r.1.os (xs ++ ((t, record { sent_at = sys.time p.os; text = s }) ∷ [])))
        (sym over) (send_queue-Holds p t s xs at free short holds (ap (λ r. r.0) (sym over) ∙ e))

  -- What `pm_recv` does with a letter: it is out of the mailbox, and it is returned with the bits of
  -- its type as an `int` and its text if it was sent at most a second before.
  pub record Delivers (p : Pm sys) (t : ℕ) (l : Letter) (rest : List (ℕ × Letter)) : Type 0 where
    pub buffer : Bytes
    pub after : Pm sys
    pub returns : pm_recv p ≡ (
        if ltb 1 (sys.time after.os - l.sent_at)
        then (none, after)
        else (some (t % 2 ^ 32, message_size, buffer), after))
    pub text : c_string buffer ≡ l.text
    pub left : Holds after.os rest
    pub same_comm : after.comm_type ≡ p.comm_type
    pub same_queue : after.mq_id ≡ p.mq_id
    pub same_want : after.msgtype_get ≡ p.msgtype_get

  recv_queue-letter :
      (p : Pm sys) (t : ℕ) (m : Payload)
      → (sys.msgrcv p.os p.mq_id p.msgtype_get).0 ≡ some (t, m)
      → (after : Pm sys) × (after
          ≡ record p { os = (sys.msgrcv p.os p.mq_id p.msgtype_get).1; pmsg = received p.pmsg t m })
        × (pm_recv_queue p ≡ (
            if ltb 1 (sys.time after.os - m.time_send)
            then (none, after)
            else (some (t % 2 ^ 32, message_size, after.pmsg.text), after)))
  unfolding pm_recv_queue received
  recv_queue-letter p t m e = (_, refl, rw (e, pm_recv_queue) refl)

  -- When the mailbox has a letter of the type that is asked for, `pm_recv` over a queue takes the first
  -- one. It returns the bits of its type as an `int` and its text if the message is at most a second old,
  -- and `NULL` if it is older. The transport,
  -- the queue and the type that is asked for stay.
  pub pm_recv-Delivers :
      (p : Pm sys) (t : ℕ) (l : Letter) (xs rest : List (ℕ × Letter))
      → p.comm_type ≡ pm_queue
      → p.mq_id ≡ id
      → Holds p.os xs
      → pick p.msgtype_get xs ≡ some ((t, l), rest)
      → IsLetter l
      → Delivers p t l rest
  unfolding pm_recv received
  pm_recv-Delivers p t l xs rest comm at holds first h =
      let want = p.msgtype_get in
      let there : pick want (queue.holds p.os) ≡ some (post (t, l), post_all rest) =
        ap (pick want) holds ∙ pick-post_all want xs ∙ ap posted first in
      let got = queue.rcv p.os want (post (t, l)) (post_all rest) there in
      let here : (sys.msgrcv p.os p.mq_id want).0 ≡ some (post (t, l)) =
        ap (λ i. (sys.msgrcv p.os i want).0) at ∙ got.0 in
      let (after, is, runs) = recv_queue-letter p t (post (t, l)).1 here in
      record {
        buffer = after.pmsg.text;
        after = after;
        returns = rw (queue_comm p comm) runs;
        text = ap (λ q. c_string q.pmsg.text) is ∙ letter-text l _ h;
        left =
            ap (λ q. queue.holds q.os) is
            ∙ ap (λ i. queue.holds (sys.msgrcv p.os i want).1) at
            ∙ got.1;
        same_comm = ap (λ q. q.comm_type) is;
        same_queue = ap (λ q. q.mq_id) is;
        same_want = ap (λ q. q.msgtype_get) is;
      }
