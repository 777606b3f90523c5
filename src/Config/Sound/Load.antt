-- ===== src/Config/Sound/Load.antt =====
-- The loads of src/config.c keep the words of the array in the pool and every buffer that is not freed.
use libhelp.Base.{
  ℕ, ◌+◌, ◌<◌, ◌≡◌, refl, sym, ap, ◌∙◌, subst, none, some, [], Option-elim_eq, arith, Bytes, length,
  eq_of_some, if-elim, ◌==◌,
}
use libhelp.Config.Judy.{Judy, IsMap, Memory}
use libhelp.Config.Load.{
  no_error, free_conf, with_buffers, config_load2, Source, no_open, no_stat, opened, read_file,
  config_load,
}
use libhelp.Config.SameSwitch.{parse_file-parse}
use libhelp.Config.Sound.{IsBacked, IsSound, IsParsing, Kept-IsSound}
use libhelp.Config.Sound.Parse.{SoundIn, parse-SoundIn, free_src-IsSound}
use libhelp.Config.Switch.{start}
use libhelp.Config.Types.{Config, Loaded}

module _ {j : Judy} {m : Memory} (map : IsMap j) (b : IsBacked m) where
  -- sound, and without a copy
  pub record IsIdle (cfg : Config j m) : Type 0 where
    pub sound : IsSound b cfg
    pub no_conf : cfg.conf ≡ none

  pub free_conf-IsIdle : (cfg : Config j m) → IsSound b cfg → IsIdle (free_conf (no_error cfg))
  unfolding free_conf
  free_conf-IsIdle cfg s =
      Option-elim_eq IsIdle cfg.conf _ _
        (λ e. record {
          sound = record { good = s.good; words = s.words; conf = s.conf };
          no_conf = e;
        })
        (λ x e.
          let k = b.free_kept cfg.heap x.0 s.good (s.conf x.0 x.1 e) in
          record {
            sound = record {
              good = k.good;
              words =
                  λ key value f. let (a, there) = s.words key value f in (a, k.holds a value there);
              conf = λ p text f. absurd (cc f);
            };
            no_conf = refl;
          })

  module _ (src_size conf_size : ℕ) (cfg : Config j m) (nz : 0 < src_size) (nz' : 0 < conf_size)
      (s : IsIdle cfg) where
    abbrev one_more : m.Heap
    one_more = (m.alloc cfg.heap src_size).1

    abbrev two_more : m.Heap
    two_more = (m.alloc one_more conf_size).1

    pub after_one : IsSound b (record cfg { heap = one_more })
    after_one =
        Kept-IsSound b cfg one_more _ s.sound (b.alloc_kept cfg.heap src_size s.sound.good)
          (λ p t e. tt)

    after_two : IsSound b (record cfg { heap = two_more })
    after_two =
        Kept-IsSound b (record cfg { heap = one_more }) two_more _ after_one
          (b.alloc_kept one_more conf_size after_one.good) (λ p t e. tt)

    -- with both buffers
    pub buffers-IsParsing :
        (src conf : ℕ)
        → (m.alloc cfg.heap src_size).0 ≡ some src
        → (m.alloc one_more conf_size).0 ≡ some conf
        → (text : Bytes)
        → IsParsing b (record cfg { heap = two_more; src = src; conf = some (conf, text) })
    buffers-IsParsing src conf e e' text =
        let (first, new) = b.alloc_buffer cfg.heap src_size src s.sound.good nz e in
        let (second, new') = b.alloc_buffer one_more conf_size conf after_one.good nz' e' in
        record {
          sound = record {
            good = after_two.good;
            words = after_two.words;
            conf = λ p t f.
                subst (b.Buffer two_more) (ap (λ (x : ℕ × Bytes). x.0) (eq_of_some f)) second;
          };
          src = (b.alloc_kept one_more conf_size after_one.good).buffers src tt first;
          src_ne =
              λ p t f q. new' src first (sym q ∙ sym (ap (λ (x : ℕ × Bytes). x.0) (eq_of_some f)));
        }

    with_buffers-SoundIn :
        (body : ℕ → Config j m → Loaded j m)
        → ((p : ℕ) (cfg' : Config j m)
            → ((text : Bytes) → IsParsing b (record cfg' { conf = some (p, text) }))
            → SoundIn map b (body p cfg'))
        → SoundIn map b (with_buffers src_size conf_size cfg body)
    unfolding with_buffers
    with_buffers-SoundIn body runs =
        Option-elim_eq (SoundIn map b) (m.alloc cfg.heap src_size).0 _ _ (λ e. after_one)
          (λ src e.
            Option-elim_eq (SoundIn map b) (m.alloc one_more conf_size).0 _ _
              (λ e'. record {
                good = after_two.good;
                words = after_two.words;
                conf = after_two.conf;
              })
              (λ conf e'.
                runs conf (record cfg { heap = two_more; src = src })
                  (buffers-IsParsing src conf e e')))

  -- `config_load2` of any text, over a heap and a pool with the laws of Config/Sound, in a configuration
  -- whose strings stand in the pool and whose `conf` is a live buffer: the same holds of the
  -- configuration afterwards, whether the load succeeds or fails.
  pub config_load2-SoundIn :
      (fuel : ℕ) (cfg : Config j m) (str : Bytes)
      → IsSound b cfg
      → SoundIn map b (config_load2 fuel cfg str)
  unfolding config_load2
  config_load2-SoundIn fuel cfg str s =
      with_buffers-SoundIn (length str + 1) (length str + 1) (free_conf (no_error cfg))
        (omega arith) (omega arith) (free_conf-IsIdle cfg s) _
        (λ p cfg' s'.
          parse-SoundIn map b fuel str (record cfg' { conf = some (p, str) }) start (s' str))

  -- `read_file` on the buffers of `config_load`
  read_file-SoundIn :
      (fuel beyond size : ℕ) (text : Bytes) (p : ℕ) (cfg : Config j m)
      → ((t : Bytes) → IsParsing b (record cfg { conf = some (p, t) }))
      → SoundIn map b (read_file fuel beyond size text p cfg)
  unfolding read_file
  read_file-SoundIn fuel beyond size text p cfg s =
      if-elim (SoundIn map b) (length text == size)
        (subst (SoundIn map b)
          (sym (parse_file-parse fuel beyond text (record cfg { conf = some (p, text) }) start))
          (parse-SoundIn map b fuel text (record cfg { conf = some (p, text) }) start (s text)))
        (free_src-IsSound map b (record cfg { conf = some (p, []) }) (s []))

  -- `config_load` of whatever `open`, `fstat` and `read` answer keeps the configuration sound, whether
  -- it succeeds or fails.
  pub config_load-SoundIn :
      (fuel beyond : ℕ) (cfg : Config j m) (source : Source)
      → IsSound b cfg
      → SoundIn map b (config_load fuel beyond cfg source)
  unfolding config_load
  config_load-SoundIn fuel beyond cfg no_open s = record {
    good = s.good;
    words = s.words;
    conf = s.conf;
  }
  config_load-SoundIn fuel beyond cfg no_stat s = record {
    good = s.good;
    words = s.words;
    conf = s.conf;
  }
  config_load-SoundIn fuel beyond cfg (opened size text) s =
      with_buffers-SoundIn (size + 1) (size + 2) (free_conf (no_error cfg)) (omega arith)
        (omega arith) (free_conf-IsIdle cfg s) _
        (λ p cfg' s'. read_file-SoundIn fuel beyond size text p cfg' s')
