-- ===== src/Config/Whole.antt =====
-- src/config.c on top of src/pool.c: from a text to the bytes of its values in the pool.
use libhelp.Base.{ℕ, ◌≡◌, refl, none, Option, List, Bytes, All}
use libhelp.Config.Backing.{pool_backed, pool_founded}
use libhelp.Config.Composed.{WordsStand}
use libhelp.Config.Erase.Whole.{Inserts, MadeOf, config_new2-MadeOf}
use libhelp.Config.InPool.{Store, pool_memory}
use libhelp.Config.Judy.{Judy, IsMap}
use libhelp.Config.New.{Created, made, config_new2}
use libhelp.Config.Text.{Item, IsItem, print_all, give_all}
use libhelp.Pool.{Malloc}
use libhelp.Pool.Memory.{IsAllocator}

-- A configuration without a reported line, with the words that the lines give, each of them in the
-- pool; or `NULL`. Either way `n` calls of the pool did not return.
abbrev pub MadeWhole :
    {m : Malloc} (realloc : m.Heap → ℕ → ℕ → Option ℕ × m.Heap)
    → IsAllocator m
    → (j : Judy) → ℕ
    → List Item
    → Created j (pool_memory m realloc)
    → Type 0
MadeWhole realloc laws j n xs (made cfg line) =
    (line ≡ 0)
    × ((i : Bytes) → j.get cfg.entries i ≡ give_all xs i none)
    × WordsStand realloc laws j cfg
    × (cfg.heap.lost ≡ n)
MadeWhole realloc laws j n xs (Created.refused h line) = h.lost ≡ n
MadeWhole realloc laws j n xs Created.undefined = ⊥
MadeWhole realloc laws j n xs Created.out_of_fuel = ⊥

module _ {j : Judy} {m : Malloc} (map : IsMap j) (inserts : Inserts j) (laws : IsAllocator m)
    (realloc : m.Heap → ℕ → ℕ → Option ℕ × m.Heap) where
  whole :
      (s : Store m) (xs : List Item) (r : Created j (pool_memory m realloc))
      → MadeOf map
          (pool_backed laws s.lost realloc)
          inserts
          s
          (pool_founded laws s.lost realloc s refl)
          xs
          r
      → MadeWhole realloc laws j s.lost xs r
  unfolding pool_backed pool_founded
  whole s xs (made cfg line) (zero_line, words, sound) =
      (zero_line, words, sound.words, sound.good.1)
  whole s xs (Created.refused h line) e = e
  whole s xs Created.undefined e = e
  whole s xs Created.out_of_fuel e = e

  -- `config_new2`, with the pool of src/pool.c in a heap with the laws of `malloc`, which may refuse, and
  -- a Judy array that takes every key, on a text of lines with quoted values, bare values, comments and
  -- blanks: it returns, and so did every call of the pool on the way. If it makes a configuration, no line is reported, each key that the text
  -- names has the value of the last line that names it, no other key has a word, and every value
  -- stands in the pool, whole and with its NUL.
  pub config_new2-MadeWhole :
      (fuel : ℕ) (s : Store m) (xs : List Item) (line : ℕ)
      → All IsItem xs
      → MadeWhole realloc laws j s.lost xs (config_new2 fuel s (print_all xs) line)
  config_new2-MadeWhole fuel s xs line all = whole s xs (config_new2 fuel s (print_all xs) line) (
      config_new2-MadeOf map (pool_backed laws s.lost realloc) inserts s
        (pool_founded laws s.lost realloc s refl) xs fuel line all)
