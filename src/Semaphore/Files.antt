-- ===== src/Semaphore/Files.antt =====
-- `semaphore_create`, `semaphore_open` and `semaphore_close` of src/semaphore.c, over the system calls.
use libhelp.Base.{ℕ, ◌≡◌, refl, ◌∙◌, Option, none, some, List, ◌∷◌, Bytes}

-- what the functions call
pub record System : Type 1 where
  pub Os : Type 0
  -- `open` with `O_CREAT | O_EXCL`, and without
  pub open_new : Os → Bytes → Option ℕ × Os
  pub open_old : Os → Bytes → Option ℕ × Os
  -- `ftruncate` to the size of a `semaphore_t`
  pub ftruncate : Os → ℕ → Os
  -- an address, or `none` for `MAP_FAILED`
  pub mmap : Os → ℕ → Option ℕ × Os
  pub close : Os → ℕ → Os
  -- `pthread_mutex_init` and `pthread_cond_init` of a semaphore, shared between processes
  pub init : Os → ℕ → Os
  pub munmap : Os → ℕ → Os

module _ (sys : System) where
  pub data Opened : Type 0 where
    null : sys.Os → Opened
    -- `MAP_FAILED`, which is not `NULL`
    not_mapped : sys.Os → Opened
    mapped : ℕ → sys.Os → Opened
    -- a store through `MAP_FAILED`
    undefined : sys.Os → Opened

  -- behind `mmap` and `close`
  abbrev pub initialize : Option ℕ → sys.Os → Opened
  initialize none os = undefined os
  initialize (some at) os = mapped at (sys.init os at)

  abbrev pub create_at : Option ℕ → sys.Os → Opened
  create_at none os = null os
  create_at (some fd) os =
      let (at, os') = sys.mmap (sys.ftruncate os fd) fd in initialize at (sys.close os' fd)

  unfoldable pub semaphore_create : sys.Os → Bytes → Opened
  semaphore_create os name = let (fd, os') = sys.open_new os name in create_at fd os'

  abbrev pub given : Option ℕ → sys.Os → Opened
  given none os = not_mapped os
  given (some at) os = mapped at os

  abbrev pub open_at : Option ℕ → sys.Os → Opened
  open_at none os = null os
  open_at (some fd) os = let (at, os') = sys.mmap os fd in given at (sys.close os' fd)

  unfoldable pub semaphore_open : sys.Os → Bytes → Opened
  semaphore_open os name = let (fd, os') = sys.open_old os name in open_at fd os'

  unfoldable pub semaphore_close : sys.Os → ℕ → sys.Os
  semaphore_close os at = sys.munmap os at

  -- the state of the system behind an outcome
  abbrev pub behind : Opened → sys.Os
  behind (null os) = os
  behind (not_mapped os) = os
  behind (mapped at os) = os
  behind (undefined os) = os

  abbrev pub with_fd : Option ℕ → List ℕ → List ℕ
  with_fd none fds = fds
  with_fd (some fd) fds = fd ∷ fds

  -- What is documented of descriptors: a call of `open` that succeeds adds the one it returns, `close`
  -- takes it away, and the other calls keep them.
  pub record HasDescriptors : Type 0 where
    pub fds : sys.Os → List ℕ
    pub opens_new :
        (os : sys.Os) (name : Bytes)
        → fds (sys.open_new os name).1 ≡ with_fd (sys.open_new os name).0 (fds os)
    pub opens_old :
        (os : sys.Os) (name : Bytes)
        → fds (sys.open_old os name).1 ≡ with_fd (sys.open_old os name).0 (fds os)
    pub closes :
        (os : sys.Os) (fd : ℕ) (rest : List ℕ) → fds os ≡ fd ∷ rest → fds (sys.close os fd) ≡ rest
    pub truncates : (os : sys.Os) (fd : ℕ) → fds (sys.ftruncate os fd) ≡ fds os
    pub maps : (os : sys.Os) (fd : ℕ) → fds (sys.mmap os fd).1 ≡ fds os
    pub initializes : (os : sys.Os) (at : ℕ) → fds (sys.init os at) ≡ fds os
    pub unmaps : (os : sys.Os) (at : ℕ) → fds (sys.munmap os at) ≡ fds os

  module _ (d : HasDescriptors) where
    initialize-fds : (at : Option ℕ) (os : sys.Os) → d.fds (behind (initialize at os)) ≡ d.fds os
    initialize-fds none os = refl
    initialize-fds (some at) os = d.initializes os at

    given-fds : (at : Option ℕ) (os : sys.Os) → d.fds (behind (given at os)) ≡ d.fds os
    given-fds none os = refl
    given-fds (some at) os = refl

    create_at-fds :
        (fd : Option ℕ) (os : sys.Os) (rest : List ℕ)
        → d.fds os ≡ with_fd fd rest
        → d.fds (behind (create_at fd os)) ≡ rest
    create_at-fds none os rest h = h
    create_at-fds (some fd) os rest h =
        let (at, os') = sys.mmap (sys.ftruncate os fd) fd in
        initialize-fds at (sys.close os' fd)
        ∙ d.closes os' fd rest (d.maps (sys.ftruncate os fd) fd ∙ d.truncates os fd ∙ h)

    open_at-fds :
        (fd : Option ℕ) (os : sys.Os) (rest : List ℕ)
        → d.fds os ≡ with_fd fd rest
        → d.fds (behind (open_at fd os)) ≡ rest
    open_at-fds none os rest h = h
    open_at-fds (some fd) os rest h =
        let (at, os') = sys.mmap os fd in
        given-fds at (sys.close os' fd) ∙ d.closes os' fd rest (d.maps os fd ∙ h)

    -- Whatever the system calls answer, `semaphore_create` and `semaphore_open` leave the open
    -- descriptors as they were, and so does `semaphore_close`.
    pub semaphore_create-fds :
        (os : sys.Os) (name : Bytes) (at : ℕ)
        → (d.fds (behind (semaphore_create os name)) ≡ d.fds os)
          × (d.fds (behind (semaphore_open os name)) ≡ d.fds os)
          × (d.fds (semaphore_close os at) ≡ d.fds os)
    unfolding semaphore_create semaphore_open semaphore_close
    semaphore_create-fds os name at = (
      create_at-fds (sys.open_new os name).0 (sys.open_new os name).1 (d.fds os)
          (d.opens_new os name),
      open_at-fds (sys.open_old os name).0 (sys.open_old os name).1 (d.fds os)
          (d.opens_old os name),
      d.unmaps os at,
    )
