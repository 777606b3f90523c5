-- ===== src/Config/Erase/Parse.antt =====
-- The parser and the load of src/config.c over a heap, and over none.
use libhelp.Base.{
  c_string, ℕ, zero, suc, ◌+◌, ◌≡◌, refl, ap, subst, Option, none, some, Option-elim, [], ◌∷◌, ◌++◌,
  arith, Bytes, Bool, true, false, ltb, length, drop, if◌then◌else◌,
}
use libhelp.Config.Erase.{plain, erase, StoredAlike, RoundAlike, LoadedAlike}
use libhelp.Config.Insert.{
  c_word, strncmp_equal, Stored, stored, failed, ◌>>=◌, fill_slot, insert, copy_loop,
  config_key_max_size,
}
use libhelp.Config.Judy.{Word, Judy, Memory}
use libhelp.Config.Load.{no_error, free_conf, with_buffers, config_load2}
use libhelp.Config.Switch.{achar, after, goto, start, step_in, resume, finish, parse}
use libhelp.Config.Types.{
  State, space_s, param_value_s, param_qt_value_s, param_value_skip_s, param_copy_value_s, Config,
  Locals, Round, advance, skip, error, Loaded,
}

-- the same test on both sides of a relation
if-related :
    {A B : Type 0} (R : A → B → Type 0) (b : Bool) {x y : A} {x' y' : B}
    → R x x'
    → R y y'
    → R (if b then x else y) (if b then x' else y')
if-related R true h k = h
if-related R false h k = k

Option-related :
    {A B C : Type 0} (R : B → C → Type 0) (o : Option A) (n : B) (s : A → B) (n' : C) (s' : A → C)
    → R n n'
    → ((a : A) → R (s a) (s' a))
    → R (elim o [ none ↦ n | some a ↦ s a ]) (elim o [ none ↦ n' | some a ↦ s' a ])
Option-related R none n s n' s' h k = h
Option-related R (some a) n s n' s' h k = k a

module _ {j : Judy} {m : Memory} where
  insert-Alike :
      (cfg : Config j m) (key : Bytes) (value : Word)
      → StoredAlike (insert cfg key value) (insert (erase cfg) key value)
  unfolding insert fill_slot
  insert-Alike cfg key none =
      Option-related StoredAlike (j.ins cfg.entries key) _ _ _ _ tt (λ a. refl)
  insert-Alike cfg key (some v) =
      Option-related StoredAlike (j.ins cfg.entries key) _ _ _ _ tt (λ a. ground arith)

  bind-Alike :
      (s : Stored j m) (s' : Stored j plain) (f : Config j m → Stored j m)
      (g : Config j plain → Stored j plain)
      → StoredAlike s s'
      → ((cfg : Config j m) → StoredAlike (f cfg) (g (erase cfg)))
      → StoredAlike (s >>= f) (s' >>= g)
  bind-Alike (stored cfg) s' f g h next = subst (λ r. StoredAlike (f cfg) (r >>= g)) h (next cfg)
  bind-Alike (failed cfg) s' f g h next = tt
  bind-Alike Stored.undefined s' f g h next = ap (λ r. r >>= g) h
  bind-Alike Stored.out_of_fuel s' f g h next = ap (λ r. r >>= g) h

  copy_loop-Alike :
      (fuel : ℕ) (pkey name : Bytes) (cfg : Config j m) (pw : Option (Bytes × Word))
      → StoredAlike (copy_loop fuel pkey name cfg pw) (copy_loop fuel pkey name (erase cfg) pw)
  unfolding copy_loop
  copy_loop-Alike zero pkey name cfg pw = refl
  copy_loop-Alike (suc fuel) pkey name cfg none = refl
  copy_loop-Alike (suc fuel) pkey name cfg (some (index, value)) =
      let key = pkey ++ drop (length name) index in
      if-related StoredAlike (strncmp_equal name index)
        (if-related StoredAlike (ltb config_key_max_size (length key)) refl (
          bind-Alike (insert cfg key (c_word value)) _ _ _ (insert-Alike cfg key (c_word value))
            (λ c. copy_loop-Alike fuel pkey name c (j.next c.entries index))))
        refl

  after-Alike :
      (w : Stored j m) (w' : Stored j plain) (l : Locals)
      → StoredAlike w w'
      → RoundAlike (after w l) (after w' l)
  after-Alike (stored cfg) w' l e = ap (λ s. after s l) e
  after-Alike (failed cfg) w' l e = tt
  after-Alike Stored.undefined w' l e = ap (λ s. after s l) e
  after-Alike Stored.out_of_fuel w' l e = ap (λ s. after s l) e

  step_in-Alike :
      (s : State) (fuel : ℕ) (cfg : Config j m) (l : Locals) (c ahead : ℕ)
      → RoundAlike (step_in s fuel cfg l c ahead) (step_in s fuel (erase cfg) l c ahead)
  unfolding step_in achar
  step_in-Alike param_value_s fuel cfg l c ahead = ground (
    arith,
    after-Alike (insert cfg l.pkey (some l.pvalue)) _ (goto space_s l)
        (insert-Alike cfg l.pkey (some l.pvalue)),
  )
  step_in-Alike param_qt_value_s fuel cfg l c ahead = ground (
    arith,
    after-Alike (insert cfg l.pkey (some l.pvalue)) _ (goto param_value_skip_s l)
        (insert-Alike cfg l.pkey (some l.pvalue)),
  )
  step_in-Alike param_copy_value_s fuel cfg l c ahead =
      let pw = j.first cfg.entries (c_string l.pvalue) in
      ground (
        arith,
        after-Alike (copy_loop fuel l.pkey l.pvalue cfg pw) _ (goto space_s l)
            (copy_loop-Alike fuel l.pkey l.pvalue cfg pw),
      )
  step_in-Alike _ fuel cfg l c ahead = ground arith

  resume-Alike :
      (r : Round j m) (r' : Round j plain) (more beyond : Config j m → Locals → Loaded j m)
      (more' beyond' : Config j plain → Locals → Loaded j plain)
      → RoundAlike r r'
      → ((c : Config j m) (k : Locals) → LoadedAlike (more c k) (more' (erase c) k))
      → ((c : Config j m) (k : Locals) → LoadedAlike (beyond c k) (beyond' (erase c) k))
      → LoadedAlike (resume r more beyond) (resume r' more' beyond')
  resume-Alike (advance c k) r' more beyond more' beyond' e f g =
      subst (λ x. LoadedAlike (more c k) (resume x more' beyond')) e (f c k)
  resume-Alike (skip c k) r' more beyond more' beyond' e f g =
      subst (λ x. LoadedAlike (beyond c k) (resume x more' beyond')) e (g c k)
  resume-Alike (error c) r' more beyond more' beyond' e f g = tt
  resume-Alike Round.undefined r' more beyond more' beyond' e f g =
      ap (λ x. resume x more' beyond') e
  resume-Alike Round.out_of_fuel r' more beyond more' beyond' e f g =
      ap (λ x. resume x more' beyond') e

  parse-Alike :
      (fuel : ℕ) (src : Bytes) (cfg : Config j m) (l : Locals)
      → LoadedAlike (parse fuel src cfg l) (parse fuel src (erase cfg) l)
  unfolding parse
  parse-Alike fuel [] cfg l = refl
  parse-Alike fuel (c ∷ []) cfg l =
      resume-Alike (step_in l.state fuel cfg l c 0) _ finish finish finish finish
        (step_in-Alike l.state fuel cfg l c 0) (λ b k. refl) (λ b k. refl)
  parse-Alike fuel (c ∷ d ∷ rest) cfg l =
      resume-Alike (step_in l.state fuel cfg l c d) _ _ _ _ _ (step_in-Alike l.state fuel cfg l c d)
        (λ b k. parse-Alike fuel (d ∷ rest) b k) (λ b k. parse-Alike fuel rest b k)

  free_conf-erase : (cfg : Config j m) → erase (free_conf cfg) ≡ free_conf (erase cfg)
  unfolding free_conf
  free_conf-erase cfg = go cfg.conf refl
    where
      go : (c : Option (ℕ × Bytes)) → cfg.conf ≡ c → erase (free_conf cfg) ≡ free_conf (erase cfg)
      go none e = rw e refl
      go (some x) e = rw e refl

  -- `config_load2` fails, or does what it does over no heap.
  pub config_load2-Alike :
      (fuel : ℕ) (cfg : Config j m) (str : Bytes)
      → LoadedAlike (config_load2 fuel cfg str) (config_load2 fuel (erase cfg) str)
  unfolding config_load2 with_buffers
  config_load2-Alike fuel cfg str =
      let old = free_conf (no_error cfg) in
      let r : Loaded j plain = config_load2 fuel (erase cfg) str in
      let n = length str + 1 in
      Option-elim (λ (x : Loaded j m). LoadedAlike {j = j} {m = m} x r) (m.alloc old.heap n).0 _ _
        tt
        (λ src.
          Option-elim (λ (x : Loaded j m). LoadedAlike {j = j} {m = m} x r)
            (m.alloc (m.alloc old.heap n).1 n).0 _ _ tt
            (λ conf.
              let ready : Config j m = record old {
                heap = (m.alloc (m.alloc old.heap n).1 n).1;
                src = src;
                conf = some (conf, str);
              } in
              subst (LoadedAlike (parse fuel str ready start))
                (ap
                  (λ (c : Config j plain).
                    parse fuel str (record c { src = 0; conf = some (0, str) }) start)
                  (free_conf-erase (no_error cfg)))
                (parse-Alike fuel str ready start)))
