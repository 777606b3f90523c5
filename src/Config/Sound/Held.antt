-- ===== src/Config/Sound/Held.antt =====
-- The strings that a configuration of src/config.c gave out stay where they are through a load.
use libhelp.Base.{ℕ, ◌≡◌, some, Bytes}
use libhelp.Config.Judy.{Judy, IsMap, Memory}
use libhelp.Config.Load.{Source, config_load, config_load2}
use libhelp.Config.Sound.{Kept, IsBacked, IsSound}
use libhelp.Config.Sound.Load.{config_load-SoundIn, config_load2-SoundIn}
use libhelp.Config.Sound.Parse.{SoundIn}
use libhelp.Config.Types.{Config, Loaded, ok, err}

-- a step of a heap in which the string stands keeps it there
also_held :
    {m : Memory} (b : IsBacked m) (a : ℕ) (s : Bytes) {h h' : m.Heap} {Spared : ℕ → Type 0}
    → b.Holds h a s
    → Kept m b.Good b.Holds b.Buffer h h' Spared
    → Kept m (λ i. b.Good i × b.Holds i a s) b.Holds b.Buffer h h' Spared
also_held b a s there k = record {
  good = (k.good, k.holds a s there);
  holds = k.holds;
  buffers = k.buffers;
}

-- The same laws for the heaps in which a given string stands at a given address as well.
with_string : {m : Memory} → IsBacked m → ℕ → Bytes → IsBacked m
with_string b a s = record {
  Good = λ h. b.Good h × b.Holds h a s;
  Holds = b.Holds;
  Buffer = b.Buffer;
  cpy_kept = λ h t g. also_held b a s g.1 (b.cpy_kept h t g.0);
  cpy_holds = λ h t g. b.cpy_holds h t g.0;
  alloc_kept = λ h n g. also_held b a s g.1 (b.alloc_kept h n g.0);
  alloc_buffer = λ h n p g. b.alloc_buffer h n p g.0;
  free_kept = λ h p g q. also_held b a s g.1 (b.free_kept h p g.0 q);
}

-- After a load, whatever its outcome: the configuration is sound, and the string stands at the address.
abbrev pub HoldsIn : {j : Judy} {m : Memory} → IsBacked m → ℕ → Bytes → Loaded j m → Type 0
HoldsIn b a s (ok cfg) = IsSound b cfg × b.Holds cfg.heap a s
HoldsIn b a s (err cfg) = IsSound b cfg × b.Holds cfg.heap a s
HoldsIn b a s _ = Unit

module _ {j : Judy} {m : Memory} (map : IsMap j) (b : IsBacked m) where
  IsSound-with_string :
      (cfg : Config j m) (a : ℕ) (s : Bytes)
      → IsSound b cfg
      → b.Holds cfg.heap a s
      → IsSound (with_string b a s) cfg
  unfolding with_string
  IsSound-with_string cfg a s sound there = record {
    good = (sound.good, there);
    words = sound.words;
    conf = sound.conf;
  }

  both :
      (a : ℕ) (s : Bytes) (cfg : Config j m)
      → IsSound (with_string b a s) cfg
      → IsSound b cfg × b.Holds cfg.heap a s
  unfolding with_string
  both a s cfg w = (record { good = w.good.0; words = w.words; conf = w.conf }, w.good.1)

  held : (a : ℕ) (s : Bytes) (r : Loaded j m) → SoundIn map (with_string b a s) r → HoldsIn b a s r
  held a s (ok cfg) w = both a s cfg w
  held a s (err cfg) w = both a s cfg w
  held a s Loaded.undefined w = tt
  held a s Loaded.out_of_fuel w = tt

  -- A configuration whose strings stand in the pool and whose `conf` is a live buffer, over any heap and
  -- pool with the laws of Config/Sound. The string of a key stands at an address at which it still stands
  -- after `config_load2` of any text and after `config_load` of any file, whether they succeed or fail,
  -- and even if they give the key another value. All strings of the configuration stand in the pool
  -- then, and its `conf` is a live buffer.
  pub config_load2-HoldsIn :
      (fuel beyond : ℕ) (cfg : Config j m) (str : Bytes) (file : Source) (key value : Bytes)
      → IsSound b cfg
      → j.get cfg.entries key ≡ some (some value)
      → (a : ℕ) × b.Holds cfg.heap a value
        × HoldsIn b a value (config_load2 fuel cfg str)
        × HoldsIn b a value (config_load fuel beyond cfg file)
  config_load2-HoldsIn fuel beyond cfg str file key value sound e =
      let (a, there) = sound.words key value e in
      let sound' = IsSound-with_string cfg a value sound there in
      (
        a,
        there,
        held a value _ (config_load2-SoundIn map (with_string b a value) fuel cfg str sound'),
        held a value _
            (config_load-SoundIn map (with_string b a value) fuel beyond cfg file sound'),
      )
