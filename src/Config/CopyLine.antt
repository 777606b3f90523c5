-- ===== src/Config/CopyLine.antt =====
-- A line `key @prefix;` of src/config.c, from its first byte to its last.
use libhelp.Base.{
  NulFree, c_string-NulFree, ℕ, ◌≤◌, ◌<◌, ◌≡◌, refl, ap, ◌∙◌, arith, not, [], List, ◌∷◌, ◌++◌,
  append-nil, append_assoc, Bytes, le→ltb, length, All,
}
use libhelp.Config.CopyKeys.{IsCopyable, Copied, Copies, copy_loop-Copies}
use libhelp.Config.Insert.{config_key_max_size, stored, copy_loop}
use libhelp.Config.Judy.{Judy, IsMap, Memory, IsPlentiful}
use libhelp.Config.Order.{bytes_lt, bytes_lt-append, IsOrdered}
use libhelp.Config.RoundTrip.{at, parse_advance, parse-IsKey}
use libhelp.Config.Switch.{step_in, parse, after}
use libhelp.Config.Text.{IsKey, IsInside}
use libhelp.Config.Types.{space_s, param_key_sp_s, param_copy_value_s, Config, advance}
use libhelp.Config.Walk.{from-IsUpward, left-length}

abbrev pub copy_line : Bytes → Bytes → Bytes → Bytes
copy_line key name rest = key ++ (b' ' ∷ b'@' ∷ (name ++ (b';' ∷ rest)))

module _ {j : Judy} {m : Memory} where
  parse-name :
      (fuel : ℕ) (name rest : Bytes) (cfg : Config j m) (n : ℕ) (key value : Bytes)
      → All IsInside name
      → parse fuel (name ++ rest) cfg (at param_copy_value_s n key value)
        ≡ parse fuel rest cfg (at param_copy_value_s n key (value ++ name))
  parse-name fuel [] rest cfg n key value h = rw append-nil
  parse-name fuel (c ∷ name) rest cfg n key value h =
      parse_advance fuel c (name ++ rest) cfg cfg (at param_copy_value_s n key value)
        (at param_copy_value_s n key (value ++ (c ∷ []))) (λ ahead. unfold step_in in ground arith)
      ∙ parse-name fuel name rest cfg n key (value ++ (c ∷ [])) h.1
      ∙ rw append_assoc

  -- the end of the line
  step_copy :
      (fuel : ℕ) (cfg cfg' : Config j m) (n : ℕ) (key name : Bytes) (ahead : ℕ)
      → NulFree name
      → length name ≤ config_key_max_size
      → copy_loop fuel key name cfg (j.first cfg.entries name) ≡ stored cfg'
      → step_in param_copy_value_s fuel cfg (at param_copy_value_s n key name) b';' ahead
        ≡ advance cfg' (at space_s n key name)
  unfolding step_in
  step_copy fuel cfg cfg' n key name ahead free short e =
      rw (le→ltb config_key_max_size (length name) short, c_string-NulFree name free)
        (ap (λ r. after r (at space_s n key name)) e)

  -- With room for everything and more fuel than the array has keys with the prefix, the parser reads a line
  -- `key @name;` to its end: each key that begins with `name` is copied to the key that begins with
  -- `key` in its place, with its string up to a NUL, and no other key is changed. The name has no NUL, no
  -- copy may begin with it, and none may be longer than 64 bytes.
  pub parse-Copies :
      (map : IsMap j) (ordered : IsOrdered j) (room : IsPlentiful j m) (fuel : ℕ) (cfg : Config j m)
      (key name rest : Bytes) (ks : List Bytes) (n : ℕ) (old old' : Bytes)
      → IsKey key
      → All IsInside name
      → length name ≤ config_key_max_size
      → IsCopyable j cfg.entries key name ks
      → length ks < fuel
      → (cfg' : Config j m) × (parse fuel (copy_line key name rest) cfg (at space_s n old old')
          ≡ parse fuel rest cfg' (at space_s n key name))
        × Copies cfg.entries key name cfg cfg'
  parse-Copies map ordered room fuel cfg key name rest ks n old old' is_key inside short can
        enough =
      let start_at : Copied j cfg.entries key name (λ i. not (not (bytes_lt i name))) cfg.entries =
        record {
          copied = λ s v e h. let no = bytes_lt-append name s in absurd (ground (arith, h, no));
          kept = λ k h. refl;
        } in
      let few = left-length name (λ i. not (bytes_lt i name)) ks in
      let (cfg', run, copies) =
        copy_loop-Copies can map ordered room fuel (λ i. not (bytes_lt i name)) cfg
          (j.first cfg.entries name) (from-IsUpward name) start_at (ordered.first cfg.entries name)
          (omega (arith, enough, few)) in
      (
        cfg',
        parse-IsKey fuel key (b'@' ∷ (name ++ (b';' ∷ rest))) cfg n old old' is_key
            ∙ parse_advance fuel b'@' (name ++ (b';' ∷ rest)) cfg cfg (at param_key_sp_s n key old')
                (at param_copy_value_s n key []) (λ ahead. unfold step_in in refl)
            ∙ parse-name fuel name (b';' ∷ rest) cfg n key [] inside
            ∙ parse_advance fuel b';' rest cfg cfg' (at param_copy_value_s n key name)
                (at space_s n key name)
                (λ ahead. step_copy fuel cfg cfg' n key name ahead can.no_nul short run),
        copies,
      )
