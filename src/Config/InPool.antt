-- ===== src/Config/InPool.antt =====
-- src/config.c over src/pool.c: the heap of a configuration is the heap of the process with the pool
-- in it, and `pool_new`, `pool_calloc`, `pool_cpy` and `pool_delete` are those of src/pool.c.
use libhelp.Base.{ℕ, ◌+◌, Bool, true, false, Option, none, some, [], ◌∷◌, ◌++◌}
use libhelp.Config.Judy.{Memory}
use libhelp.Pool.{Malloc, Pool, Allocated, ok, pool_new, pool_calloc, pool_cpy, pool_delete}

-- The heap of the process, `config->pool`, and a count of the calls of the pool that did not return, or
-- were undefined. The answers of a store in which it has grown are those of no run.
pub record Store (m : Malloc) : Type 0 where
  pub heap : m.Heap
  pub pool : Pool
  pub lost : ℕ

-- `sizeof(config_t)`
abbrev pub sizeof_config : ℕ
sizeof_config = 48

-- whether a call of the pool gives an address, and what it leaves
abbrev pub answer : {m : Malloc} → Store m → Allocated m → Bool × Store m
answer s (ok none pool heap) = (false, record s { heap = heap; pool = pool })
answer s (ok (some p) pool heap) = (true, record s { heap = heap; pool = pool })
answer s Allocated.undefined = (false, record s { lost = s.lost + 1 })
answer s Allocated.out_of_fuel = (false, record s { lost = s.lost + 1 })

module _ (m : Malloc) (realloc : m.Heap → ℕ → ℕ → Option ℕ × m.Heap) where
  -- `pool_alloc` has fuel for two nested calls; a call that needs more is counted in `lost`.
  abbrev pub pool_memory : Memory
  pool_memory = record {
    Heap = Store m;
    alloc = λ s n. let (p, h) = m.malloc s.heap n in (p, record s { heap = h });
    realloc = λ s p n. let (q, h) = realloc s.heap p n in (q, record s { heap = h });
    free = λ s p. record s { heap = m.free s.heap p };
    pool_new = λ s size rmd. answer s (pool_new {m = m} s.heap size rmd);
    pool_calloc = λ s. answer s (pool_calloc {m = m} 2 s.heap s.pool sizeof_config);
    pool_delete = λ s. record s { heap = pool_delete m s.heap (some s.pool) };
    cpy = λ s bytes. answer s (pool_cpy {m = m} 2 s.heap s.pool (bytes ++ (0 ∷ [])));
  }
