-- ===== src/Semaphore/Counts.antt =====
-- The count of a semaphore of src/semaphore.c.
use libhelp.Base.{ℕ, ◌+◌, ◌^◌, ◌<◌, ◌≡◌, refl, arith, some}
use libhelp.Semaphore.{
  Semaphore, Step, post_wakes, post_unheard, post_quiet, enter, sleep, pass, spurious, Reaches,
  here, later, created, increment, wait_round,
}

abbrev Balanced : Semaphore → Type 0
Balanced s = s.count + s.passed ≡ s.posted

increment-Balanced :
    (s : Semaphore)
    → s.posted + 1 < 2 ^ 32
    → Balanced s
    → increment s.count + s.passed ≡ s.posted + 1
unfolding increment
increment-Balanced s few h = omega (arith, few, h)

wait_round-some : (count left : ℕ) → wait_round count ≡ some left → count ≡ left + 1
unfolding wait_round
wait_round-some count left e = ground (arith, e)

Step-Balanced :
    {s t : Semaphore} → Step s t → t.posted < 2 ^ 32 → (s.posted < 2 ^ 32 → Balanced s) → Balanced t
Step-Balanced {s} (post_wakes i q p) few h = increment-Balanced s few (h (omega (arith, few)))
Step-Balanced {s} (post_unheard q n) few h = increment-Balanced s few (h (omega (arith, few)))
Step-Balanced {s} (post_quiet q) few h = increment-Balanced s few (h (omega (arith, few)))
Step-Balanced (enter i p) few h = h few
Step-Balanced (sleep i p e) few h = h few
Step-Balanced {s} (pass i left p e) few h = omega (arith, h few, wait_round-some s.count left e)
Step-Balanced (spurious i p) few h = h few

-- In every state that a new semaphore reaches with fewer than 2^32 calls of `semaphore_post`, the
-- count and the calls of `semaphore_wait` that returned are together the calls of `semaphore_post`:
-- no more threads pass than were let in, and none of these permissions is lost from the count.
pub created-Balanced :
    (n : ℕ) {s : Semaphore}
    → Reaches (created n) s
    → s.posted < 2 ^ 32
    → s.count + s.passed ≡ s.posted
unfolding created
created-Balanced n here few = refl
created-Balanced n (later r step) few = Step-Balanced step few (created-Balanced n r)
