-- ===== src/Messages/Handler.antt =====
-- The loop of the thread that `pm_handler_start` of src/proc_msg.cpp starts, with the
-- `pm_handler_parser` of src/proc_msg.h, which prints.
use libhelp.Base.{
  ℕ, zero, suc, ◌-◌, ◌%◌, ◌^◌, ◌≡◌, refl, ap, sym, ◌∙◌, subst, true, ◌||◌, Option, none, some, List,
  [], ◌∷◌, Bytes, ◌==◌, c_string, length, All, ltb, Bool-cases, inl, inr, if◌then◌else◌,
}
use libhelp.Messages.Types.{message_size, System, Pm}
use libhelp.Messages.Pm.{pm_queue, pm_recv}
use libhelp.Messages.Mailbox.{pick, IsQueue, Letter, IsLetter, Holds, Delivers, pm_recv-Delivers}

-- the type, the size and the buffer that the parser gets, or `NULL`
abbrev pub Call : Type 0
Call = Option (ℕ × ℕ × Bytes)

module _ {sys : System} where
  -- before the thread starts
  unfoldable pub pm_handler_start : Pm sys → ℕ → Pm sys
  pm_handler_start p msgtype_get = record p { msgtype_get = msgtype_get }

  unfoldable pub pm_answer_get : Pm sys → Call × Pm sys
  pm_answer_get p = pm_recv p

  -- so many rounds of `while (1)`, and the calls of the parser
  unfoldable pub pm_handler : ℕ → Pm sys → List Call × Pm sys
  unfolding pm_answer_get
  pm_handler zero p = ([], p)
  pm_handler (suc rounds) p =
      let (call, p') = pm_answer_get p in
      let (calls, p'') = pm_handler rounds p' in (call ∷ calls, p'')

-- what a parser reads: a type and a string
abbrev pub reads : Call → Option (ℕ × Bytes)
reads none = none
reads (some (t, size, buffer)) = some (t, c_string buffer)

-- A run of the loop over letters: a round for each, in which the parser gets the bits of its type as an
-- `int` and its string, or `NULL` if it is older than a second when it is taken.
pub data Handled {sys : System} : Pm sys → List (ℕ × Letter) → List Call → Pm sys → Type 0 where
  finished : {p : Pm sys} → Handled p [] [] p
  handled :
      {p after end : Pm sys} {t : ℕ} {l : Letter} {xs : List (ℕ × Letter)} {call : Call}
      {calls : List Call}
      → pm_recv p ≡ (call, after)
      → reads call
        ≡ (if ltb 1 (sys.time after.os - l.sent_at) then none else some (t % 2 ^ 32, l.text))
      → Handled after xs calls end
      → Handled p ((t, l) ∷ xs) (call ∷ calls) end

-- a letter that a receiver of a type takes
abbrev pub IsAwaited : ℕ → ℕ × Letter → Type 0
IsAwaited want (t, l) = ((want == 0 || want == t) ≡ true) × IsLetter l

module _ {sys : System} (id : ℕ) (queue : IsQueue sys id) where
  pick-first :
      (want t : ℕ) (l : Letter) (xs : List (ℕ × Letter))
      → (want == 0 || want == t) ≡ true
      → pick want ((t, l) ∷ xs) ≡ some ((t, l), xs)
  unfolding pick
  pick-first want t l xs h = rw h refl

  -- the rounds behind a first one
  round-Handled :
      (p : Pm sys) (t : ℕ) (l : Letter) (xs : List (ℕ × Letter)) (n : ℕ)
      → (d : Delivers id queue p t l xs)
      → Handled d.after xs (pm_handler n d.after).0 (pm_handler n d.after).1
      → Holds id queue (pm_handler n d.after).1.os []
      → Handled p ((t, l) ∷ xs) (pm_handler (suc n) p).0 (pm_handler (suc n) p).1
        × Holds id queue (pm_handler (suc n) p).1.os []
  unfolding pm_handler pm_answer_get
  round-Handled p t l xs n d rest empty =
      elim (Bool-cases (ltb 1 (sys.time d.after.os - l.sent_at))) [
        | inl old ↦
            let taken : pm_recv p ≡ (none, d.after) = d.returns ∙ rw old refl in
            rw taken (handled taken (rw old refl) rest, empty)
        | inr new ↦
            let taken : pm_recv p ≡ (some (t % 2 ^ 32, message_size, d.buffer), d.after) =
              d.returns ∙ rw new refl in
            rw taken (handled taken (rw new (ap (λ s. some (t % 2 ^ 32, s)) d.text)) rest, empty)
      ]

  handler-Handled :
      (p : Pm sys) (xs : List (ℕ × Letter))
      → p.comm_type ≡ pm_queue
      → p.mq_id ≡ id
      → Holds id queue p.os xs
      → All (IsAwaited p.msgtype_get) xs
      → Handled p xs (pm_handler (length xs) p).0 (pm_handler (length xs) p).1
        × Holds id queue (pm_handler (length xs) p).1.os []
  unfolding pm_handler
  handler-Handled p [] comm at holds all = (finished, holds)
  handler-Handled p ((t, l) ∷ xs) comm at holds (awaited, all) =
      let d =
        pm_recv-Delivers id queue p t l ((t, l) ∷ xs) xs comm at holds
          (pick-first p.msgtype_get t l xs awaited.0) awaited.1 in
      let rest =
        handler-Handled d.after xs (d.same_comm ∙ comm) (d.same_queue ∙ at) d.left
          (subst (λ w. All (IsAwaited w) xs) (sym d.same_want) all) in
      round-Handled p t l xs (length xs) d rest.0 rest.1

  -- The thread of a queue that holds letters of the type asked for: after as many rounds as there are
  -- letters, `pm_handler_parser` was called once for each letter, in the order in which they were
  -- sent, with the bits of its type as an `int` and its string, or with `NULL` for a letter that was older than a second when
  -- it was taken. The queue is empty then.
  pub pm_handler-Handled :
      (p : Pm sys) (want : ℕ) (xs : List (ℕ × Letter))
      → p.comm_type ≡ pm_queue
      → p.mq_id ≡ id
      → Holds id queue p.os xs
      → All (IsAwaited want) xs
      → Handled
          (pm_handler_start p want)
          xs
          (pm_handler (length xs) (pm_handler_start p want)).0
          (pm_handler (length xs) (pm_handler_start p want)).1
        × Holds id queue (pm_handler (length xs) (pm_handler_start p want)).1.os []
  unfolding pm_handler_start
  pm_handler-Handled p want xs comm at holds all =
      handler-Handled (pm_handler_start p want) xs comm at holds all
