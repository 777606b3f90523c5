-- ===== src/Semaphore/Tests.antt =====
-- Steps of a semaphore of src/semaphore.c, and its theorems at them.
use libhelp.Base.{List, Option, none, some, codes, ap, ℕ, ◌+◌, ◌≡◌, refl, arith, [], ◌∷◌}
use libhelp.Semaphore.{
  Phase, outside, testing, sleeping, Semaphore, post_wakes, post_quiet, enter, sleep, pass, Reaches,
  here, later, created, increment, wait_round, signals,
}
use libhelp.Semaphore.Files.{System, undefined, semaphore_create, HasDescriptors}
use libhelp.Semaphore.Counts.{created-Balanced}
use libhelp.Semaphore.Wakes.{created-Awake}

abbrev pair : ℕ → ℕ → Phase → Phase → Semaphore
pair count posted p q = record { count = count; threads = p ∷ q ∷ []; posted = posted; passed = 0 }

-- Two threads sleep. The second post finds a count of 1 and does not signal.
both_asleep : Reaches (created 2) (pair 0 0 sleeping sleeping)
unfolding created wait_round
both_asleep =
    later (later (later (later here (enter 0 refl)) (sleep 0 refl refl)) (enter 1 refl))
      (sleep 1 refl refl)

two_posts : Reaches (created 2) (pair 2 2 testing sleeping)
unfolding signals increment
two_posts = later (later both_asleep (post_wakes 0 refl refl)) (post_quiet refl)

abbrev lost : Semaphore
lost = record { count = 1; threads = outside ∷ sleeping ∷ []; posted = 2; passed = 1 }

-- The first thread returns; the second sleeps although the count is 1.
lost_wake_up : Reaches (created 2) lost
unfolding wait_round
lost_wake_up = later two_posts (pass 0 1 refl refl)

created-Balanced_example : lost.count + lost.passed ≡ lost.posted
created-Balanced_example = created-Balanced 2 lost_wake_up (omega arith)

abbrev alone : Semaphore
alone = record { count = 0; threads = sleeping ∷ []; posted = 0; passed = 0 }

asleep : Reaches (created 1) alone
unfolding created wait_round
asleep = later (later here (enter 0 refl)) (sleep 0 refl refl)

created-Awake_example : alone.count ≡ 0
created-Awake_example = created-Awake 0 asleep refl

-- a system that gives out descriptors in order
record Machine : Type 0 where
  fds : List ℕ
  next : ℕ
  maps : Option ℕ

abbrev tail : List ℕ → List ℕ
tail [] = []
tail (x ∷ xs) = xs

abbrev system : System
system = record {
  Os = Machine;
  open_new = λ os name. (some os.next, record os { fds = os.next ∷ os.fds; next = os.next + 1 });
  open_old = λ os name. (some os.next, record os { fds = os.next ∷ os.fds; next = os.next + 1 });
  ftruncate = λ os fd. os;
  mmap = λ os fd. (os.maps, os);
  close = λ os fd. record os { fds = tail os.fds };
  init = λ os at. os;
  munmap = λ os at. os;
}

system-HasDescriptors : HasDescriptors system
system-HasDescriptors = record {
  fds = λ os. os.fds;
  opens_new = λ os name. refl;
  opens_old = λ os name. refl;
  closes = λ os fd rest e. ap tail e;
  truncates = λ os fd. refl;
  maps = λ os fd. refl;
  initializes = λ os at. refl;
  unmaps = λ os at. refl;
}

abbrev machine : Machine
machine = record { fds = 2 ∷ 1 ∷ 0 ∷ []; next = 3; maps = some 4096 }

-- no room for a map: the mutex is initialized all the same
unmapped :
    semaphore_create system (record machine { maps = none }) (codes "/tmp/s")
    ≡ undefined (record machine { maps = none; next = 4 })
unfolding semaphore_create
unmapped = refl
