-- ===== src/Pool/Lifetime.antt =====
-- Whole lives of a pool of src/pool.c: it is made, serves a client and is deleted.
use libhelp.Base.{
  ℕ, ◌+◌, ◌≡◌, refl, subst, arith, false, Option, none, some, List, [], ◌∷◌, ◌==◌, count,
}
use libhelp.Pool.{
  Malloc, Block, Pool, Made, made, no_memory, Allocated, ok, pool_alloc, pool_new, pool_of,
  pool_delete, free_large, free_blocks,
}
use libhelp.Pool.Accounts.{
  Log, logged, bases, datas, Accounts, AllocatedAccounts, MadeAccounts, new_block-Accounts,
  pool_alloc-Accounts,
}

module _ {m : Malloc} where
  -- what some calls of `free` leave: the addresses given back are those of `xs` in addition
  record Returns (h : Log m) (xs : List ℕ) (h' : Log m) : Type 0 where
    taken : h'.taken ≡ h.taken
    back : (a : ℕ) → count a h'.back ≡ count a h.back + count a xs

  free_large-Returns :
      (ls : List (ℕ × ℕ)) (h : Log m)
      → count 0 (datas ls) ≡ 0
      → Returns h (datas ls) (free_large (logged m) ls h)
  unfolding free_large
  free_large-Returns [] h z = record { taken = refl; back = λ a. omega arith }
  free_large-Returns ((l, p) ∷ rest) h z =
      let some_data : (p == 0) ≡ false = ground (arith, z) in
      let next : Log m = record { heap = m.free h.heap p; taken = h.taken; back = p ∷ h.back } in
      let later = free_large-Returns rest next (omega (arith, z)) in
      rw some_data (record { taken = later.taken; back = λ a. omega (arith, later.back a) })

  free_blocks-Returns :
      (bs : List Block) (h : Log m) → Returns h (bases bs) (free_blocks (logged m) bs h)
  unfolding free_blocks
  free_blocks-Returns [] h = record { taken = refl; back = λ a. omega arith }
  free_blocks-Returns (b ∷ rest) h =
      let next : Log m = record {
        heap = m.free h.heap b.base;
        taken = h.taken;
        back = b.base ∷ h.back;
      } in
      let later = free_blocks-Returns rest next in
      record { taken = later.taken; back = λ a. omega (arith, later.back a) }

  abbrev pub and_then :
      Allocated (logged m) → (Pool → Log m → Allocated (logged m)) → Allocated (logged m)
  and_then (ok p pool h) f = f pool h
  and_then Allocated.undefined f = Allocated.undefined
  and_then Allocated.out_of_fuel f = Allocated.out_of_fuel

  -- a client that asks for memory of some sizes, one after the other
  unfoldable pub allocs : ℕ → List ℕ → Pool → Log m → Allocated (logged m)
  unfolding pool_alloc
  allocs fuel [] pool h = ok none pool h
  allocs fuel (n ∷ ns) pool h =
      and_then (pool_alloc {m = logged m} fuel h pool n) (λ pool' h'. allocs fuel ns pool' h')

  and_then-Accounts :
      (r : Allocated (logged m)) (f : Pool → Log m → Allocated (logged m))
      → AllocatedAccounts [] r
      → ((pool : Pool) (h : Log m) → Accounts [] h pool → AllocatedAccounts [] (f pool h))
      → AllocatedAccounts [] (and_then r f)
  and_then-Accounts (ok p pool h) f inv next = next pool h inv
  and_then-Accounts Allocated.undefined f inv next = tt
  and_then-Accounts Allocated.out_of_fuel f inv next = tt

  allocs-Accounts :
      (fuel : ℕ) (ns : List ℕ) (pool : Pool) (h : Log m)
      → Accounts [] h pool
      → AllocatedAccounts [] (allocs fuel ns pool h)
  unfolding allocs
  allocs-Accounts fuel [] pool h inv = inv
  allocs-Accounts fuel (n ∷ ns) pool h inv =
      and_then-Accounts (pool_alloc {m = logged m} fuel h pool n) _
        (pool_alloc-Accounts [] fuel h pool n inv)
        (λ pool' h' inv'. allocs-Accounts fuel ns pool' h' inv')

  abbrev pub empty : m.Heap → Log m
  empty heap = record { heap = heap; taken = []; back = [] }

  pool_of-Accounts :
      (heap : m.Heap) (size : ℕ) (r : Made (logged m))
      → MadeAccounts (empty heap) r
      → AllocatedAccounts [] (pool_of size r)
  pool_of-Accounts heap size (made b h) (t, k) = λ a. rw t (rw k (omega arith))
  pool_of-Accounts heap size (no_memory h) (t, k) = λ a. rw t (rw k refl)
  pool_of-Accounts heap size Made.undefined inv = tt

pool_new-Accounts :
    (m : Malloc) (heap : m.Heap) (size rmd : ℕ)
    → AllocatedAccounts {m = m} [] (pool_new {m = logged m} (empty {m = m} heap) size rmd)
unfolding pool_new
pool_new-Accounts m heap size rmd =
    pool_of-Accounts {m = m} heap size _ (new_block-Accounts (empty {m = m} heap) size rmd)

module _ {m : Malloc} where
  -- A new pool serves a client, and is deleted. If `malloc` never returned the address 0, each address
  -- was then given back with `free` as often as `malloc` returned it: nothing leaks, and nothing is
  -- freed twice.
  pub pool_delete-GivesBack :
      (fuel : ℕ) (heap : m.Heap) (size rmd : ℕ) (ns : List ℕ) {p : ℕ} {pool pool' : Pool}
      {q : Option ℕ} {h h' : Log m}
      → pool_new {m = logged m} (empty {m = m} heap) size rmd ≡ ok (some p) pool h
      → allocs fuel ns pool h ≡ ok q pool' h'
      → count 0 h'.taken ≡ 0
      → (a : ℕ) → count a (pool_delete (logged m) h' (some pool')).back ≡ count a h'.taken
  unfolding pool_delete
  pool_delete-GivesBack fuel heap size rmd ns {p} {pool} {pool'} {q} {h} {h'} new served nulls a =
      let inv : Accounts [] h' pool' = subst (AllocatedAccounts []) served (
        allocs-Accounts fuel ns pool h
          (subst (AllocatedAccounts []) new (pool_new-Accounts m heap size rmd))) in
      let larges = free_large-Returns pool'.large h' (omega (arith, inv 0, nulls)) in
      let all = free_blocks-Returns pool'.blocks (free_large (logged m) pool'.large h') in
      omega (arith, inv a, larges.back a, all.back a)
