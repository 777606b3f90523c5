-- ===== src/Pool/Accounts.antt =====
-- The addresses that the allocator of src/pool.c takes from `malloc` and those that its pools hold.
use libhelp.Base.{
  ℕ, zero, suc, ◌+◌, ◌≡◌, refl, ap, arith, Option, none, some, List, [], ◌∷◌, ◌++◌, ltb, if-elim,
  Option-elim_eq, count, count-append, drop, sub64,
}
use libhelp.Pool.{
  Malloc, Block, Pool, Found, fits, full, Made, made, no_memory, Allocated, ok, set_last, new_block,
  append_block, place, alloc_small, link_large, pool_alloc, scan, is_small, sizeof_large,
  sizeof_pool, align_ptr,
}

-- a heap with the addresses that `malloc` returned and that `free` got
pub record Log (m : Malloc) : Type 0 where
  pub heap : m.Heap
  pub taken : List ℕ
  pub back : List ℕ

-- the log after `malloc`
abbrev pub take : {m : Malloc} → Log m → m.Heap → Option ℕ → Log m
take h heap none = record h { heap = heap }
take h heap (some a) = record h { heap = heap; taken = a ∷ h.taken }

abbrev pub logged : Malloc → Malloc
logged m = record {
  Heap = Log m;
  malloc = λ h n. let (p, heap) = m.malloc h.heap n in (p, take h heap p);
  free = λ h p. record h { heap = m.free h.heap p; back = p ∷ h.back };
  write = λ h p bytes. record h { heap = m.write h.heap p bytes };
}

abbrev pub bases : List Block → List ℕ
bases [] = []
bases (b ∷ rest) = b.base ∷ bases rest

abbrev pub datas : List (ℕ × ℕ) → List ℕ
datas [] = []
datas ((l, p) ∷ rest) = p ∷ datas rest

bases-set_last : (bs : List Block) (i last : ℕ) → bases (set_last bs i last) ≡ bases bs
unfolding set_last
bases-set_last [] i last = refl
bases-set_last (b ∷ bs) zero last = refl
bases-set_last (b ∷ bs) (suc i) last = ap (◌∷◌ b.base) (bases-set_last bs i last)

bases-append : (xs ys : List Block) → bases (xs ++ ys) ≡ bases xs ++ bases ys
bases-append [] ys = refl
bases-append (x ∷ xs) ys = ap (◌∷◌ x.base) (bases-append xs ys)

module _ {m : Malloc} where
  -- Each address was taken as often as it was given back, plus as often as the pool or `rest` has it.
  abbrev pub Accounts : List ℕ → Log m → Pool → Type 0
  Accounts rest h pool =
      (a : ℕ)
      → count a h.taken
        ≡ count a h.back
          + (count a (bases pool.blocks) + (count a (datas pool.large) + count a rest))

  abbrev pub AllocatedAccounts : List ℕ → Allocated (logged m) → Type 0
  AllocatedAccounts rest (ok p pool h) = Accounts rest h pool
  AllocatedAccounts rest Allocated.undefined = Unit
  AllocatedAccounts rest Allocated.out_of_fuel = Unit

  abbrev pub MadeAccounts : Log m → Made (logged m) → Type 0
  MadeAccounts h (made b h') = (h'.taken ≡ b.base ∷ h.taken) × (h'.back ≡ h.back)
  MadeAccounts h (no_memory h') = (h'.taken ≡ h.taken) × (h'.back ≡ h.back)
  MadeAccounts h Made.undefined = Unit

  pub new_block-Accounts :
      (h : Log m) (size rmd : ℕ) → MadeAccounts h (new_block {m = logged m} h size rmd)
  unfolding new_block
  new_block-Accounts h size rmd =
      let (p, heap) = m.malloc h.heap size in
      if-elim (MadeAccounts h) (ltb size 0) (refl, refl)
        (Option-elim_eq (MadeAccounts h) p _ _ (λ e. rw e (refl, refl))
          (λ base e. if-elim (MadeAccounts h) (ltb size sizeof_pool) tt (rw e (refl, refl))))

  append_block-Accounts :
      (extra : List ℕ) (h : Log m) (pool : Pool) (size cur : ℕ) (c : Option ℕ) (span : ℕ)
      (r : Made (logged m))
      → Accounts extra h pool
      → MadeAccounts h r
      → AllocatedAccounts extra (append_block pool size cur c span r)
  append_block-Accounts extra h pool size cur c span (made n h') inv (t, b) = λ a.
      let placed = record n { last = align_ptr n.last + size } in
      (rw t (
        rw b (
          omega (
            arith,
            inv a,
            ap (count a) (bases-append pool.blocks (placed ∷ [])),
            count-append a (bases pool.blocks) (n.base ∷ []),
          ))))
  append_block-Accounts extra h pool size cur c span (no_memory h') inv (t, b) =
      λ a. rw t (rw b (inv a))
  append_block-Accounts extra h pool size cur c span Made.undefined inv r = tt

  place-Accounts :
      (extra : List ℕ) (h : Log m) (pool : Pool) (size : ℕ) (f : Found)
      → Accounts extra h pool
      → AllocatedAccounts extra (place {m = logged m} h pool size f)
  place-Accounts extra h pool size (fits i at cur) inv =
      λ a. rw (bases-set_last pool.blocks i (at + size)) (inv a)
  place-Accounts extra h pool size (full b cur c) inv =
      append_block-Accounts extra h pool size cur c (sub64 b.end b.base) _ inv
        (new_block-Accounts h (sub64 b.end b.base) b.rmd)

  alloc_small-Accounts :
      (extra : List ℕ) (h : Log m) (pool : Pool) (size : ℕ)
      → Accounts extra h pool
      → AllocatedAccounts extra (alloc_small {m = logged m} h pool size)
  unfolding alloc_small
  alloc_small-Accounts extra h pool size inv =
      elim (drop pool.cur pool.blocks)
        as (λ bs. AllocatedAccounts extra (elim bs [
          | [] ↦ Allocated.undefined
          | b ∷ rest ↦ place h pool size (scan size pool.cur pool.cur b rest)
        ])) [
          | [] ↦ tt
          | b ∷ rest ↦ place-Accounts extra h pool size (scan size pool.cur pool.cur b rest) inv
        ]

  link_large-Accounts :
      (extra : List ℕ) (p size : ℕ) (r : Allocated (logged m))
      → AllocatedAccounts (p ∷ extra) r
      → AllocatedAccounts extra (link_large p size r)
  link_large-Accounts extra p size (ok none pool h) inv = λ a. omega (arith, inv a)
  link_large-Accounts extra p size (ok (some l) pool h) inv = λ a. omega (arith, inv a)
  link_large-Accounts extra p size Allocated.undefined inv = tt
  link_large-Accounts extra p size Allocated.out_of_fuel inv = tt

  pub pool_alloc-Accounts :
      (extra : List ℕ) (fuel : ℕ) (h : Log m) (pool : Pool) (size : ℕ)
      → Accounts extra h pool
      → AllocatedAccounts extra (pool_alloc {m = logged m} fuel h pool size)
  unfolding pool_alloc
  pool_alloc-Accounts extra zero h pool size inv = tt
  pool_alloc-Accounts extra (suc fuel) h pool size inv =
      let (p, heap) = m.malloc h.heap size in
      if-elim (AllocatedAccounts extra) (is_small pool.blocks size)
        (alloc_small-Accounts extra h pool size inv)
        (Option-elim_eq (AllocatedAccounts extra) p _ _ (λ e. rw e inv)
          (λ at e. link_large-Accounts extra at size _ (
            pool_alloc-Accounts (at ∷ extra) fuel (take h heap p) pool sizeof_large
              (rw e (λ a. omega (arith, inv a))))))
