-- ===== src/Config/Erase/Whole.antt =====
-- `config_new2` of src/config.c on whole texts, when memory may be refused.
use libhelp.Base.{ℕ, ◌≡◌, refl, ◌∙◌, ap, subst, Option, none, some, List, Bytes, All}
use libhelp.Config.Erase.{plain, erase, LoadedAlike}
use libhelp.Config.Erase.Parse.{config_load2-Alike}
use libhelp.Config.Judy.{Word, Judy, IsMap, Memory, IsPlentiful}
use libhelp.Config.Load.{config_load2}
use libhelp.Config.Lossless.{config_load2-print_all}
use libhelp.Config.New.{Created, made, finish, config_new2}
use libhelp.Config.Sound.{IsBacked, IsFounded, IsSound}
use libhelp.Config.Sound.Load.{config_load2-SoundIn}
use libhelp.Config.Sound.New.{with_pool-elim}
use libhelp.Config.Sound.Parse.{SoundIn}
use libhelp.Config.Text.{Item, IsItem, print_all, give_all}
use libhelp.Config.Types.{Config, Loaded, ok, err}

-- The array takes every key.
abbrev pub Inserts : Judy → Type 0
Inserts j = (a : j.Arr) (key : Bytes) → (a' : j.Arr) × (j.ins a key ≡ some a')

plain-IsPlentiful : {j : Judy} → Inserts j → IsPlentiful j plain
plain-IsPlentiful inserts = record {
  ins_some = inserts;
  cpy_true = λ h s. refl;
  alloc_some = λ h n. (0, refl);
  pool_new_true = λ h size rmd. refl;
  pool_calloc_true = λ h. refl;
}

module _ {j : Judy} {m : Memory} (map : IsMap j) (b : IsBacked m) (inserts : Inserts j) (h : m.Heap)
    (f : IsFounded b h) (xs : List Item) where
  -- A configuration that holds what the text gives, without a reported line; or `NULL`, with
  -- the heap that is left.
  abbrev pub MadeOf : Created j m → Type 0
  MadeOf (made cfg line) =
      (line ≡ 0) × ((i : Bytes) → j.get cfg.entries i ≡ give_all xs i none) × IsSound b cfg
  MadeOf (Created.refused h' line) = f.Ended h'
  MadeOf Created.undefined = ⊥
  MadeOf Created.out_of_fuel = ⊥

  finish-MadeOf :
      (c : Config j plain) (r : Loaded j m)
      → LoadedAlike r (ok c)
      → ((i : Bytes) → j.get c.entries i ≡ give_all xs i none)
      → c.line_error ≡ 0
      → SoundIn map b r
      → MadeOf (finish r)
  finish-MadeOf c (ok cfg) alike words line s = (
    ap (λ (r : Loaded j plain). line_of r) alike ∙ line,
    λ i. ap (λ (r : Loaded j plain). get_of r i) alike ∙ words i,
    s,
  )
    where
      line_of : Loaded j plain → ℕ
      line_of (ok d) = d.line_error
      line_of _ = 0

      get_of : Loaded j plain → Bytes → Option Word
      get_of (ok d) i = j.get d.entries i
      get_of _ i = none
  finish-MadeOf c (err cfg) alike words line s = f.pool_delete_ended cfg.heap s.good
  finish-MadeOf c Loaded.undefined alike words line s = absurd cc
  finish-MadeOf c Loaded.out_of_fuel alike words line s = absurd cc

  pub config_new2-MadeOf :
      (fuel : ℕ) (line : ℕ) → All IsItem xs → MadeOf (config_new2 fuel h (print_all xs) line)
  unfolding config_new2
  config_new2-MadeOf fuel line all =
      with_pool-elim map b h f MadeOf (λ h'. Created.refused h' line) _ (λ h' e. e)
        (λ cfg empty s.
          let text = print_all xs in
          let (c, e, words, zero_line, _) =
            config_load2-print_all map (plain-IsPlentiful inserts) fuel (erase cfg) xs all in
          finish-MadeOf c (config_load2 fuel cfg text)
            (subst (LoadedAlike (config_load2 fuel cfg text)) e (config_load2-Alike fuel cfg text))
            (λ i. words i ∙ ap (give_all xs i) (empty i)) zero_line
            (config_load2-SoundIn map b fuel cfg text s))
