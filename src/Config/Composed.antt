-- ===== src/Config/Composed.antt =====
-- What src/config.c and src/pool.c do together: the strings of a configuration stand in its pool.
use libhelp.Base.{ℕ, ◌≡◌, refl, ◌++◌, [], ◌∷◌, Option, some, Bytes}
use libhelp.Config.Backing.{pool_backed, pool_founded}
use libhelp.Config.InPool.{Store, pool_memory}
use libhelp.Config.Judy.{Judy, IsMap}
use libhelp.Config.Load.{Source}
use libhelp.Config.New.{Created, made, config_new, config_new2}
use libhelp.Config.Sound.New.{SoundMade, config_new-SoundMade, config_new2-SoundMade}
use libhelp.Config.Types.{Config}
use libhelp.Pool.{Malloc}
use libhelp.Pool.Memory.{IsAllocator}
use libhelp.Pool.Memory.Copy.{Stands}

-- Every string that the array has for a key stands in the pool, with the NUL that ends it.
abbrev pub WordsStand :
    {m : Malloc} (realloc : m.Heap → ℕ → ℕ → Option ℕ × m.Heap)
    → IsAllocator m
    → (j : Judy) → Config j (pool_memory m realloc)
    → Type 0
WordsStand realloc laws j cfg =
    (key value : Bytes)
    → j.get cfg.entries key ≡ some (some value)
    → (a : ℕ) × Stands laws cfg.heap.heap cfg.heap.pool a (value ++ (0 ∷ []))

-- the same of the configuration that a call makes, if it makes one
abbrev pub MadeStands :
    {m : Malloc} (realloc : m.Heap → ℕ → ℕ → Option ℕ × m.Heap)
    → IsAllocator m
    → (j : Judy) → Created j (pool_memory m realloc)
    → Type 0
MadeStands realloc laws j (made cfg line) = WordsStand realloc laws j cfg
MadeStands realloc laws j _ = Unit

module _ {j : Judy} {m : Malloc} (map : IsMap j) (laws : IsAllocator m)
    (realloc : m.Heap → ℕ → ℕ → Option ℕ × m.Heap) where
  made_lem :
      (n : ℕ) (r : Created j (pool_memory m realloc))
      → SoundMade map (pool_backed laws n realloc) r
      → MadeStands realloc laws j r
  unfolding pool_backed
  made_lem n (made cfg line) s = s.words
  made_lem n _ s = tt

  -- `config_new2` and `config_new`, with the pool of src/pool.c in a heap with the laws of `malloc`, and
  -- any text or answer of the file system: in the configuration that a call makes, every string of the
  -- array stands in the pool, whole and with its NUL, however many blocks and large allocations the
  -- pool needed for the others.
  pub config_new2-MadeStands :
      (fuel beyond : ℕ) (s : Store m) (str : Bytes) (file : Source) (line : ℕ)
      → MadeStands realloc laws j (config_new2 fuel s str line)
        × MadeStands realloc laws j (config_new fuel beyond s file line)
  config_new2-MadeStands fuel beyond s str file line = (
    made_lem s.lost _ (
        config_new2-SoundMade map (pool_backed laws s.lost realloc) s
          (pool_founded laws s.lost realloc s refl) fuel str line),
    made_lem s.lost _ (
        config_new-SoundMade map (pool_backed laws s.lost realloc) s
          (pool_founded laws s.lost realloc s refl) fuel beyond file line),
  )
