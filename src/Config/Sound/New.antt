-- ===== src/Config/Sound/New.antt =====
-- The configurations that `config_new` and `config_new2` of src/config.c make.
use libhelp.Base.{ℕ, ◌≡◌, none, Bool-cases, inl, inr, Bytes}
use libhelp.Config.Judy.{Judy, IsMap, Memory}
use libhelp.Config.Load.{Source, config_load, config_load2}
use libhelp.Config.New.{
  Created, made, finish, with_pool, config_pool_size, config_pool_rmd_size, config_new, config_new2,
}
use libhelp.Config.Sound.{IsBacked, IsFounded, IsSound}
use libhelp.Config.Sound.Load.{config_load-SoundIn, config_load2-SoundIn}
use libhelp.Config.Sound.Parse.{SoundIn}
use libhelp.Config.Types.{Config, Loaded, ok, err}

module _ {j : Judy} {m : Memory} (map : IsMap j) (b : IsBacked m) where
  -- the configuration that a call makes
  abbrev pub SoundMade : Created j m → Type 0
  SoundMade (made cfg line) = IsSound b cfg
  SoundMade _ = Unit

  finish-SoundMade : (r : Loaded j m) → SoundIn map b r → SoundMade (finish r)
  finish-SoundMade (ok cfg) s = s
  finish-SoundMade (err cfg) s = tt
  finish-SoundMade Loaded.undefined s = tt
  finish-SoundMade Loaded.out_of_fuel s = tt

module _ {j : Judy} {m : Memory} (map : IsMap j) (b : IsBacked m) (h : m.Heap)
    (f : IsFounded b h) where
  -- a new configuration is sound, and has no key
  pub with_pool-elim :
      {R : Type 0} (P : R → Type 0) (refuse : m.Heap → R) (body : Config j m → R)
      → ((h' : m.Heap) → f.Ended h' → P (refuse h'))
      → ((cfg : Config j m)
          → ((key : Bytes) → j.get cfg.entries key ≡ none)
          → IsSound b cfg
          → P (body cfg))
      → P (with_pool h refuse body)
  unfolding with_pool
  with_pool-elim P refuse body refused given =
      let h' = (m.pool_new h config_pool_size config_pool_rmd_size).1 in
      elim (Bool-cases (m.pool_new h config_pool_size config_pool_rmd_size).0) [
        | inr no_pool ↦ rw no_pool (refused h' f.pool_new_ended)
        | inl pooled ↦
            let good = f.pool_new_good pooled in
            let k = f.pool_calloc_kept h' good in
            elim (Bool-cases (m.pool_calloc h').0) [
              | inr no_config ↦ rw pooled (
                  rw no_config (
                    refused (m.pool_delete (m.pool_calloc h').1)
                      (f.pool_delete_ended (m.pool_calloc h').1 k.good)))
              | inl found ↦ rw pooled (
                  rw found (
                    given _ map.get-null (record {
                      good = k.good;
                      words = λ key value e. let empty = map.get-null key in absurd cc;
                      conf = λ p text e. absurd (cc e);
                    })))
            ]
      ]

  pub config_new-SoundMade :
      (fuel beyond : ℕ) (file : Source) (line : ℕ)
      → SoundMade map b (config_new fuel beyond h file line)
  unfolding config_new
  config_new-SoundMade fuel beyond file line =
      with_pool-elim (SoundMade map b) (λ h'. Created.refused h' line) _ (λ h' e. tt)
        (λ cfg empty s.
          finish-SoundMade map b (config_load fuel beyond cfg file)
            (config_load-SoundIn map b fuel beyond cfg file s))

  pub config_new2-SoundMade :
      (fuel : ℕ) (str : Bytes) (line : ℕ) → SoundMade map b (config_new2 fuel h str line)
  unfolding config_new2
  config_new2-SoundMade fuel str line =
      with_pool-elim (SoundMade map b) (λ h'. Created.refused h' line) _ (λ h' e. tt)
        (λ cfg empty s.
          finish-SoundMade map b (config_load2 fuel cfg str)
            (config_load2-SoundIn map b fuel cfg str s))
