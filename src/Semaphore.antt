-- ===== src/Semaphore.antt =====
-- src/semaphore.c: `semaphore_post` and `semaphore_wait` of the threads that share a semaphore, as
-- steps of a state. A thread holds the mutex from one wait on the condition to the next, so that what
-- it does there is one step.
pub mod Counts
pub mod Wakes
pub mod Files
mod Tests
use libhelp.Base.{
  ℕ, zero, suc, ◌+◌, ◌-◌, ◌%◌, ◌^◌, ◌≡◌, ◌≢◌, Bool, true, false, Option, none, some, List, [], ◌∷◌,
  ◌==◌, if◌then◌else◌, get_elem?, set, replicate,
}

-- where a thread is: outside of `semaphore_wait`, at the test of its loop, or in `pthread_cond_wait`
pub data Phase : Type 0 where
  outside : Phase
  testing : Phase
  sleeping : Phase

-- The count, and the threads that wait. How often `semaphore_post` and `semaphore_wait` ended is
-- kept beside.
pub record Semaphore : Type 0 where
  pub count : ℕ
  pub threads : List Phase
  pub posted : ℕ
  pub passed : ℕ

-- `semap->count++`, of an `unsigned`
unfoldable pub increment : ℕ → ℕ
increment count = (count + 1) % 2 ^ 32

-- a round of `semaphore_wait`: `none` goes to sleep, and otherwise the count is left behind
unfoldable pub wait_round : ℕ → Option ℕ
wait_round count = if count == 0 then none else some (count - 1)

-- the test of `semaphore_post` for a signal
unfoldable pub signals : ℕ → Bool
signals count = count == 0

abbrev pub move : Semaphore → ℕ → Phase → Semaphore
move s i phase = record s { threads = set s.threads i phase }

abbrev pub add_post : Semaphore → Semaphore
add_post s = record s { count = increment s.count; posted = s.posted + 1 }

abbrev pub InPhase : Semaphore → ℕ → Phase → Type 0
InPhase s i phase = get_elem? s.threads i ≡ some phase

pub data Step (s : Semaphore) : Semaphore → Type 0 where
  -- `semaphore_post` with a signal, which wakes a sleeping thread
  post_wakes :
      (i : ℕ) → signals s.count ≡ true → InPhase s i sleeping → Step s (move (add_post s) i testing)
  -- with a signal that finds no thread asleep
  post_unheard :
      signals s.count ≡ true
      → ((i : ℕ) → get_elem? s.threads i ≢ some sleeping)
      → Step s (add_post s)
  -- without a signal
  post_quiet : signals s.count ≡ false → Step s (add_post s)
  -- a thread calls `semaphore_wait`
  enter : (i : ℕ) → InPhase s i outside → Step s (move s i testing)
  -- its test fails, and it sleeps
  sleep : (i : ℕ) → InPhase s i testing → wait_round s.count ≡ none → Step s (move s i sleeping)
  -- it takes one off the count and returns
  pass :
      (i left : ℕ)
      → InPhase s i testing
      → wait_round s.count ≡ some left
      → Step s (record (move s i outside) { count = left; passed = s.passed + 1 })
  -- `pthread_cond_wait` may wake a thread without a signal
  spurious : (i : ℕ) → InPhase s i sleeping → Step s (move s i testing)

-- the state after some steps
pub data Reaches (s : Semaphore) : Semaphore → Type 0 where
  here : Reaches s s
  later : {t u : Semaphore} → Reaches s t → Step t u → Reaches s u

-- the semaphore that `semaphore_create` leaves, with n threads
unfoldable pub created : ℕ → Semaphore
created n = record { count = 0; threads = replicate n outside; posted = 0; passed = 0 }
