-- ===== src/Config/Sound.antt =====
-- What src/config.c needs of the heap and of its pool, as laws of the interface `Memory`, and the
-- invariant of a configuration over them: its words are strings that stand in the pool.
pub mod Parse
pub mod Load
pub mod New
pub mod Held
use libhelp.Base.{ℕ, ◌+◌, ◌<◌, ◌≡◌, ◌≢◌, true, none, some, Bytes}
use libhelp.Config.Judy.{Judy, Memory}
use libhelp.Config.New.{config_pool_size, config_pool_rmd_size}
use libhelp.Config.Types.{Config}

-- A step of the heap keeps the pool, the strings in it, and the buffers at the spared addresses.
pub record Kept (m : Memory) (Good : m.Heap → Type 0) (Holds : m.Heap → ℕ → Bytes → Type 0)
    (Buffer : m.Heap → ℕ → Type 0) (h h' : m.Heap) (Spared : ℕ → Type 0) : Type 0 where
  pub good : Good h'
  pub holds : (a : ℕ) (s : Bytes) → Holds h a s → Holds h' a s
  pub buffers : (q : ℕ) → Spared q → Buffer h q → Buffer h' q

-- `Holds h a s`: the string stands in the pool, at the address `a`. `Buffer h p`: `malloc` returned `p`
-- to the program.
pub record IsBacked (m : Memory) : Type 1 where
  pub Good : m.Heap → Type 0
  pub Holds : m.Heap → ℕ → Bytes → Type 0
  pub Buffer : m.Heap → ℕ → Type 0
  pub cpy_kept :
      (h : m.Heap) (s : Bytes) → Good h → Kept m Good Holds Buffer h (m.cpy h s).1 (λ q. Unit)
  pub cpy_holds :
      (h : m.Heap) (s : Bytes) → Good h → (m.cpy h s).0 ≡ true → (a : ℕ) × Holds (m.cpy h s).1 a s
  pub alloc_kept :
      (h : m.Heap) (n : ℕ) → Good h → Kept m Good Holds Buffer h (m.alloc h n).1 (λ q. Unit)
  pub alloc_buffer :
      (h : m.Heap) (n p : ℕ)
      → Good h
      → 0 < n
      → (m.alloc h n).0 ≡ some p
      → Buffer (m.alloc h n).1 p × ((q : ℕ) → Buffer h q → q ≢ p)
  pub free_kept :
      (h : m.Heap) (p : ℕ)
      → Good h
      → Buffer h p
      → Kept m Good Holds Buffer h (m.free h p) (λ q. q ≢ p)

-- From a heap, `pool_new` and `pool_calloc` give a pool of that kind. `Ended` is what then holds of the
-- heap when there is no pool, or no longer.
pub record IsFounded {m : Memory} (b : IsBacked m) (h : m.Heap) : Type 1 where
  pub Ended : m.Heap → Type 0
  pub pool_new_ended : Ended (m.pool_new h config_pool_size config_pool_rmd_size).1
  pub pool_new_good :
      (m.pool_new h config_pool_size config_pool_rmd_size).0 ≡ true
      → b.Good (m.pool_new h config_pool_size config_pool_rmd_size).1
  pub pool_calloc_kept :
      (k : m.Heap) → b.Good k → Kept m b.Good b.Holds b.Buffer k (m.pool_calloc k).1 (λ q. Unit)
  pub pool_delete_ended : (k : m.Heap) → b.Good k → Ended (m.pool_delete k)

-- Between the calls: every word of the array that is not `NULL` is a string in the pool, and `conf` is
-- a buffer.
pub record IsSound {j : Judy} {m : Memory} (b : IsBacked m) (cfg : Config j m) : Type 0 where
  pub good : b.Good cfg.heap
  pub words :
      (key value : Bytes)
      → j.get cfg.entries key ≡ some (some value)
      → (a : ℕ) × b.Holds cfg.heap a value
  pub conf : (p : ℕ) (text : Bytes) → cfg.conf ≡ some (p, text) → b.Buffer cfg.heap p

-- During a parse `src` is another buffer.
pub record IsParsing {j : Judy} {m : Memory} (b : IsBacked m) (cfg : Config j m) : Type 0 where
  pub sound : IsSound b cfg
  pub src : b.Buffer cfg.heap cfg.src
  pub src_ne : (p : ℕ) (text : Bytes) → cfg.conf ≡ some (p, text) → p ≢ cfg.src

module _ {j : Judy} {m : Memory} (b : IsBacked m) where
  -- a step of the heap that spares `conf`
  pub Kept-IsSound :
      (cfg : Config j m) (h : m.Heap) (Spared : ℕ → Type 0)
      → IsSound b cfg
      → Kept m b.Good b.Holds b.Buffer cfg.heap h Spared
      → ((p : ℕ) (text : Bytes) → cfg.conf ≡ some (p, text) → Spared p)
      → IsSound b (record cfg { heap = h })
  Kept-IsSound cfg h Spared s k spared = record {
    good = k.good;
    words = λ key value e. let (a, there) = s.words key value e in (a, k.holds a value there);
    conf = λ p text e. k.buffers p (spared p text e) (s.conf p text e);
  }
