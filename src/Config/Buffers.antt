-- ===== src/Config/Buffers.antt =====
-- What every load of src/config.c does before it parses: the old copy goes, two buffers come.
use libhelp.Base.{ℕ, ◌≡◌, refl, Option-elim}
use libhelp.Config.Judy.{Judy, Memory, IsPlentiful}
use libhelp.Config.Load.{free_conf, with_buffers}
use libhelp.Config.Types.{Config, Loaded, err}

module _ {j : Judy} {m : Memory} where
  -- the fields that neither the buffers nor the old copy touch
  pub record SameEntries (a b : Config j m) : Type 0 where
    pub entries : b.entries ≡ a.entries
    pub line_error : b.line_error ≡ a.line_error

  pub free_conf-SameEntries : (cfg : Config j m) → SameEntries cfg (free_conf cfg)
  unfolding free_conf
  free_conf-SameEntries cfg =
      Option-elim (SameEntries cfg) cfg.conf _ _ (record { entries = refl; line_error = refl })
        (λ p. record { entries = refl; line_error = refl })

  -- To prove a property of a load, prove it of a refusal and of what follows the allocation.
  pub with_buffers-elim :
      (P : Loaded j m → Type 0) (src_size conf_size : ℕ) (cfg : Config j m)
      (body : ℕ → Config j m → Loaded j m)
      → ((b : Config j m) → SameEntries cfg b → P (err b))
      → ((p : ℕ) (b : Config j m) → SameEntries cfg b → P (body p b))
      → P (with_buffers src_size conf_size cfg body)
  unfolding with_buffers
  with_buffers-elim P a b cfg body refused given =
      Option-elim P (m.alloc cfg.heap a).0 _ _
        (refused _ (record { entries = refl; line_error = refl }))
        (λ src.
          Option-elim P _ _ _ (refused _ (record { entries = refl; line_error = refl }))
            (λ conf. given conf _ (record { entries = refl; line_error = refl })))

  -- with room for both buffers the body runs
  pub with_buffers-some :
      (room : IsPlentiful j m) (src_size conf_size : ℕ) (cfg : Config j m)
      (body : ℕ → Config j m → Loaded j m)
      → (p : ℕ) × (b : Config j m) × SameEntries cfg b
        × (with_buffers src_size conf_size cfg body ≡ body p b)
  unfolding with_buffers
  with_buffers-some room n k cfg body =
      let h = (m.alloc cfg.heap n).1 in
      let (src, e) = room.alloc_some cfg.heap n in
      let (conf, e') = room.alloc_some h k in
      (
        conf,
        record cfg { heap = (m.alloc h k).1; src = src },
        record { entries = refl; line_error = refl },
        rw (e, with_buffers) (rw (e', with_buffers) refl),
      )
