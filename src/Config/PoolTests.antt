-- ===== src/Config/PoolTests.antt =====
-- Configurations of src/config.c in a pool of src/pool.c.
use libhelp.Base.{
  some, ℕ, ◌≡◌, refl, none, [], ◌∷◌, Bytes, bytes_eq, codes, c_string, Option, List, All, arith,
}
use libhelp.Config.Backing.{pool_backed, pool_founded}
use libhelp.Config.Composed.{MadeStands, config_new2-MadeStands}
use libhelp.Config.InPool.{Store, pool_memory}
use libhelp.Config.Load.{opened, config_load, config_load2}
use libhelp.Config.New.{config_new, config_new2, Created, made}
use libhelp.Config.Text.{Item, quoted, bare, comment, print_all, IsKey, IsItem, plain, nil}
use libhelp.Config.Whole.{MadeWhole, config_new2-MadeWhole}
use libhelp.Config.Sample.{ins, slots, slots-IsMap}
use libhelp.Config.Sound.{IsSound}
use libhelp.Config.Sound.New.{SoundMade, config_new2-SoundMade}
use libhelp.Config.Sound.Held.{HoldsIn, config_load2-HoldsIn}
use libhelp.Config.Types.{Config}
use libhelp.Config.Switch.{parse, step_in, achar}
use libhelp.Config.Insert.{insert, copy_loop}
use libhelp.Config.Order.{bytes_lt}
use libhelp.Pool.{pool_new, pool_calloc, pool_cpy}
use libhelp.Pool.Memory.New.{pool_new-IsGoodNew}
use libhelp.Pool.Memory.Sample.{Arena, arena, arena-IsAllocator}

abbrev no_realloc : Arena → ℕ → ℕ → Option ℕ × Arena
no_realloc h p n = (none, h)

abbrev store : Store arena
store = record {
  heap = record { next = 4096; at = λ a. 0 };
  pool = record { blocks = []; cur = 0; size = 0; large = [] };
  lost = 0;
}

abbrev text : Bytes
text = codes "a 1;\nb \"two\";\nc @a;"

abbrev other_text : Bytes
other_text = codes "a 3;"

-- what stands behind the `config_t`, at the address of each string
abbrev MadeAt : Created slots (pool_memory arena no_realloc) → Type 0
MadeAt (made cfg line) =
    let h = cfg.heap.heap in (h.at 4200 ≡ b'1') × (h.at 4208 ≡ b't') × (h.at 4216 ≡ b'1')
MadeAt _ = ⊥

config_new2-MadeStands_example :
    MadeStands no_realloc arena-IsAllocator slots
      (config_new2 {j = slots} {m = pool_memory arena no_realloc} 10 store text 0)
    × MadeStands no_realloc arena-IsAllocator slots (
        config_new {j = slots} {m = pool_memory arena no_realloc} 10 0 store
          (opened 4 other_text)
          0)
config_new2-MadeStands_example =
    config_new2-MadeStands slots-IsMap arena-IsAllocator no_realloc 10 0 store text
      (opened 4 other_text) 0

-- the three strings of `text` stand in the pool, each at a multiple of 8
stood : MadeAt (config_new2 {j = slots} {m = pool_memory arena no_realloc} 10 store text 0)
unfolding config_new2 pool_new pool_calloc config_load2 parse step_in achar insert pool_cpy
    copy_loop bytes_eq bytes_lt c_string
stood = (refl, refl, refl)

-- a new configuration
abbrev fresh : Config slots (pool_memory arena no_realloc)
fresh = record {
  entries = [];
  heap = record {
    heap = record { next = 8192; at = λ a. 0 };
    pool = record {
      blocks = record { base = 4096; last = 4152; end = 8192; rmd = 32 } ∷ [];
      cur = 0;
      size = 4096;
      large = [];
    };
    lost = 0;
  };
  src = 0;
  line_error = 0;
  conf = none;
}

fresh-IsSound : IsSound (pool_backed arena-IsAllocator 0 no_realloc) fresh
unfolding pool_backed pool_new
fresh-IsSound = record {
  good = (pool_new-IsGoodNew arena-IsAllocator store.heap 4096 32 refl (omega arith), refl);
  words = λ key value e. cc;
  conf = λ p t e. cc;
}

-- the configuration made from `text`
abbrev made_of :
    Created slots (pool_memory arena no_realloc) → Config slots (pool_memory arena no_realloc)
made_of (made cfg line) = cfg
made_of _ = fresh

made_of-IsSound :
    (r : Created slots (pool_memory arena no_realloc))
    → SoundMade slots-IsMap (pool_backed arena-IsAllocator 0 no_realloc) r
    → IsSound (pool_backed arena-IsAllocator 0 no_realloc) (made_of r)
made_of-IsSound (made cfg line) s = s
made_of-IsSound _ s = fresh-IsSound

abbrev loaded : Config slots (pool_memory arena no_realloc)
loaded = made_of (config_new2 {j = slots} {m = pool_memory arena no_realloc} 10 store text 0)

loaded-IsSound : IsSound (pool_backed arena-IsAllocator 0 no_realloc) loaded
loaded-IsSound =
    made_of-IsSound (config_new2 {j = slots} {m = pool_memory arena no_realloc} 10 store text 0) (
      config_new2-SoundMade slots-IsMap (pool_backed arena-IsAllocator 0 no_realloc) store
        (pool_founded arena-IsAllocator 0 no_realloc store refl) 10 text 0)

has_two : slots.get loaded.entries (codes "b") ≡ some (some (codes "two"))
unfolding config_new2 pool_new pool_calloc config_load2 parse step_in achar insert pool_cpy
    copy_loop bytes_eq bytes_lt c_string
has_two = refl

config_load2-HoldsIn_example :
    (a : ℕ) × (pool_backed arena-IsAllocator 0 no_realloc).Holds loaded.heap a (codes "two")
    × HoldsIn
        (pool_backed arena-IsAllocator 0 no_realloc)
        a
        (codes "two")
        (config_load2 10 loaded (codes "b 3;"))
    × HoldsIn
        (pool_backed arena-IsAllocator 0 no_realloc)
        a
        (codes "two")
        (config_load 10 0 loaded (opened 4 other_text))
config_load2-HoldsIn_example =
    config_load2-HoldsIn slots-IsMap (pool_backed arena-IsAllocator 0 no_realloc) 10 0 loaded
      (codes "b 3;") (opened 4 other_text) (codes "b") (codes "two") loaded-IsSound has_two

abbrev items : List Item
items = comment (codes "net") ∷ quoted (codes "k") (codes "v w") ∷ bare (codes "k") (codes "7") ∷ []

k-IsKey : IsKey (codes "k")
unfolding achar
k-IsKey = record { chars = (refl, tt); not_empty = λ e. cc; short = omega arith }

items-IsItem : All IsItem items
items-IsItem = (
  (refl, (refl, (refl, tt))),
  ((k-IsKey, plain refl (plain refl (plain refl nil))), ((k-IsKey, (refl, tt)), tt)),
)

config_new2-MadeWhole_example :
    MadeWhole no_realloc arena-IsAllocator slots 0 items
      (config_new2 {j = slots} {m = pool_memory arena no_realloc} 0 store (print_all items) 3)
config_new2-MadeWhole_example =
    config_new2-MadeWhole slots-IsMap (λ a key. (ins a key, refl)) arena-IsAllocator no_realloc 0
      store items 3 items-IsItem

abbrev from_items : Config slots (pool_memory arena no_realloc)
from_items =
    made_of (config_new2 {j = slots} {m = pool_memory arena no_realloc} 0 store (print_all items) 3)

-- a configuration is made from `items`, with the last value of the key
last_value : slots.get from_items.entries (codes "k") ≡ some (some (codes "7"))
unfolding config_new2 pool_new pool_calloc config_load2 parse step_in achar insert pool_cpy
    copy_loop bytes_eq bytes_lt c_string
last_value = refl
