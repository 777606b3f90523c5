-- ===== src/Config/CopyTests.antt =====
-- Copies of keys in src/config.c, on small arrays.
use libhelp.Base.{
  c_string, starts_with, ◌≡◌, refl, arith, inl, ◌≤◌, sym, subst, eq_of_some, none, some, [], ◌∷◌,
  ◌++◌, Bytes, codes, length, bytes_eq,
}
use libhelp.Config.CopyKeys.{IsCopyable, Copies}
use libhelp.Config.CopyLine.{copy_line, parse-Copies}
use libhelp.Config.Insert.{Stored, stored, strncmp_equal, config_key_max_size, insert, copy_loop}
use libhelp.Config.Judy.{Word}
use libhelp.Config.Load.{config_load2}
use libhelp.Config.Order.{bytes_lt}
use libhelp.Config.RoundTrip.{at}
use libhelp.Config.Sample.{
  Slots, slots, slots-IsMap, slots-IsOrdered, counting, counting-IsPlentiful,
}
use libhelp.Config.Switch.{achar, step_in, parse}
use libhelp.Config.Text.{IsKey}
use libhelp.Config.Types.{space_s, Config, Loaded}

abbrev config : Config slots counting
config = record {
  entries = (codes "port", some (codes "80")) ∷ (codes "ip", some (codes "::1")) ∷ [];
  heap = 5;
  src = 1;
  line_error = 0;
  conf = none;
}

-- the only key that begins with `port`
only_port :
    (s : Bytes) (w : Word)
    → slots.get config.entries (codes "port" ++ s) ≡ some w
    → (s ≡ []) × (w ≡ some (codes "80"))
unfolding bytes_eq
only_port [] w e = (refl, sym (eq_of_some e))
only_port (c ∷ s) w e = absurd (cc e)

config-IsCopyable : IsCopyable slots config.entries (codes "new.port") (codes "port") ([] ∷ [])
unfolding starts_with
config-IsCopyable = record {
  no_nul = (refl, (refl, (refl, (refl, tt))));
  apart = λ s. refl;
  short = λ s w e.
      subst (λ t. length (codes "new.port" ++ t) ≤ config_key_max_size) (sym (only_port s w e).0)
        (omega arith);
  valued = λ s w e. (codes "80", (only_port s w e).1);
  known = λ s w e. inl (only_port s w e).0;
}

new_port-IsKey : IsKey (codes "new.port")
unfolding achar
new_port-IsKey = record {
  chars = (refl, (refl, (refl, (refl, (refl, (refl, (refl, (refl, tt))))))));
  not_empty = λ e. cc;
  short = omega arith;
}

parse-Copies_example :
    (cfg' : Config slots counting) × (parse 2
        (copy_line (codes "new.port") (codes "port") (codes "\n"))
        config
        (at space_s 1 [] [])
      ≡ parse 2 (codes "\n") cfg' (at space_s 1 (codes "new.port") (codes "port")))
    × Copies config.entries (codes "new.port") (codes "port") config cfg'
parse-Copies_example =
    parse-Copies slots-IsMap slots-IsOrdered counting-IsPlentiful 2 config (codes "new.port")
      (codes "port") (codes "\n") ([] ∷ []) 1 [] [] new_port-IsKey
      (refl, (refl, (refl, (refl, tt)))) (omega arith) config-IsCopyable (omega arith)

abbrev empty : Config slots counting
empty = record { entries = []; heap = 0; src = 0; line_error = 0; conf = none }

-- A copy to a key that begins with the name copies its own copies, until the array `key` is too short.
overrun : config_load2 100 empty (codes "a 1;ab @a;") ≡ Loaded.undefined
unfolding config_load2 parse step_in achar insert copy_loop bytes_eq bytes_lt strncmp_equal c_string
overrun = refl

-- In a file, a name may have a NUL: only the key that ends there is copied, and of its value the bytes
-- before a NUL.
abbrev with_nuls : Config slots counting
with_nuls = record empty {
  entries = (codes "a", some (b'1' ∷ 0 ∷ b'2' ∷ [])) ∷ (codes "ab", some (codes "3")) ∷ [];
}

copied_entries : Stored slots counting → Slots
copied_entries (stored cfg) = cfg.entries
copied_entries _ = []

nul_name :
    copied_entries (
      copy_loop 3
        (codes "c")
        (b'a' ∷ 0 ∷ b'x' ∷ [])
        with_nuls
        (slots.first with_nuls.entries (codes "a")))
    ≡ (codes "a", some (b'1' ∷ 0 ∷ b'2' ∷ []))
      ∷ (codes "ab", some (codes "3"))
      ∷ (codes "c", some (codes "1"))
      ∷ []
unfolding copied_entries copy_loop strncmp_equal insert bytes_eq bytes_lt c_string
nul_name = refl
