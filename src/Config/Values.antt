-- ===== src/Config/Values.antt =====
-- What the getters of src/config.c return for values that a configuration text gives.
use libhelp.Base.{
  ℕ, ◌^◌, ◌<◌, ◌≡◌, ◌≢◌, refl, ap, ◌∙◌, true, none, some, [], ◌∷◌, Bytes, arith, length, All, codes,
  bytes_eq, bytes_eq_refl, if◌then◌else◌, ℤ, pos, neg_ℕ,
}
use libhelp.Config.Get.{fetch, int_of, is_yes, config_get_int, config_get_uint, config_get_bool}
use libhelp.Config.Judy.{Judy, IsMap, Memory, IsPlentiful}
use libhelp.Config.Load.{config_load2}
use libhelp.Config.Lossless.{config_load2-print_all}
use libhelp.Config.Text.{bare, print_all, IsKey, IsBare, IsInside}
use libhelp.Config.Types.{Config, ok}
use libhelp.Str.RoundTrip.{atoui-itoa}
use libhelp.Str.{is_digit, atoui, atoui_int, itoa}

digits-IsInside : (s : Bytes) → All (λ c. is_digit c ≡ true) s → All IsInside s
unfolding is_digit
digits-IsInside [] h = tt
digits-IsInside (c ∷ s) h = (ground (arith, h.0), digits-IsInside s h.1)

digits-IsBare : (s : Bytes) → All (λ c. is_digit c ≡ true) s → 0 < length s → IsBare s
unfolding is_digit
digits-IsBare [] h more = absurd (omega arith)
digits-IsBare (c ∷ s) h more = (ground (arith, h.0), digits-IsInside s h.1)

-- the first byte of a printed number is no sign
int_of-digits :
    (s : Bytes)
    → All (λ c. is_digit c ≡ true) s
    → int_of s ≡ (elim (atoui_int 0 s) [ none ↦ none | some rc ↦ some (pos rc) ])
unfolding int_of is_digit
int_of-digits [] h = refl
int_of-digits (c ∷ s) h = ground (arith, h.0)

is_yes-bytes_eq : (s : Bytes) → All (λ c. c ≢ 0) s → is_yes s ≡ bytes_eq s (codes "yes")
unfolding is_yes bytes_eq
is_yes-bytes_eq [] h = refl
is_yes-bytes_eq (a ∷ []) h = ground arith
is_yes-bytes_eq (a ∷ b ∷ []) h = ground arith
is_yes-bytes_eq (a ∷ b ∷ c ∷ []) h = ground arith
is_yes-bytes_eq (a ∷ b ∷ c ∷ d ∷ s) h = ground (arith, h.1.1.1.0)

module _ {j : Judy} {m : Memory} where
  -- For a value that is a C string, `config_get_bool` returns 1 if it is `yes`, and 0 if not.
  pub config_get_bool-yes :
      (cfg : Config j m) (key : Bytes) (def : ℤ) {value : Bytes}
      → j.get cfg.entries key ≡ some (some value)
      → All (λ c. c ≢ 0) value
      → config_get_bool cfg key def ≡ some (if bytes_eq value (codes "yes") then pos 1 else pos 0)
  unfolding config_get_bool
  config_get_bool-yes cfg key def {value} e h =
      ap (λ w. fetch w def (λ k. some (if is_yes k then pos 1 else pos 0))) e
      ∙ ap (λ b. some (if b then pos 1 else pos 0)) (is_yes-bytes_eq value h)

  config_get_uint-some :
      (cfg : Config j m) (key : Bytes) (def : ℕ) {value : Bytes}
      → j.get cfg.entries key ≡ some (some value)
      → config_get_uint cfg key def ≡ some (atoui 0 value)
  unfolding config_get_uint
  config_get_uint-some cfg key def e = ap (λ w. fetch w def (λ k. some (atoui 0 k))) e

  config_get_int-some :
      (cfg : Config j m) (key : Bytes) (def : ℤ) {value : Bytes}
      → j.get cfg.entries key ≡ some (some value)
      → config_get_int cfg key def ≡ int_of value
  unfolding config_get_int
  config_get_int-some cfg key def e = ap (λ w. fetch w def int_of) e

  module _ (map : IsMap j) (room : IsPlentiful j m) (fuel : ℕ) where
    -- A number below 2^32 that `itoa` prints as a bare value is what `config_get_uint` returns for the
    -- key after `config_load2`.
    pub config_get_uint-itoa :
        (cfg : Config j m) (key : Bytes) (v def : ℕ)
        → IsKey key
        → v < 2 ^ 32
        → (out : Bytes) × (cfg' : Config j m) × (itoa [] v ≡ some out)
          × (config_load2 fuel cfg (print_all (bare key out ∷ [])) ≡ ok cfg')
          × (config_get_uint cfg' key def ≡ some v)
    config_get_uint-itoa cfg key v def h small =
        let (out, e, p) = atoui-itoa [] v small in
        let digits : All (λ c. is_digit c ≡ true) out = rw p.written p.is_digits in
        let filled : 0 < length out = rw p.written p.not_empty in
        let (cfg', runs, words, zero_line, kept) =
          config_load2-print_all map room fuel cfg (bare key out ∷ [])
            ((h, digits-IsBare out digits filled), tt) in
        (
          out,
          cfg',
          e,
          runs,
          config_get_uint-some cfg' key def {value = out} (words key ∙ rw (bytes_eq_refl key))
              ∙ ap some (rw p.written p.read_back),
        )

    -- A number below 2^31 that `itoa` prints, bare or behind a minus sign, is what `config_get_int`
    -- returns for the key after `config_load2`, with its sign.
    pub config_get_int-itoa :
        (cfg : Config j m) (key : Bytes) (v : ℕ) (def : ℤ)
        → IsKey key
        → v < 2 ^ 31
        → (out : Bytes) × (plus minus : Config j m) × (itoa [] v ≡ some out)
          × (config_load2 fuel cfg (print_all (bare key out ∷ [])) ≡ ok plus)
          × (config_get_int plus key def ≡ some (pos v))
          × (config_load2 fuel cfg (print_all (bare key (b'-' ∷ out) ∷ [])) ≡ ok minus)
          × (config_get_int minus key def ≡ some (neg_ℕ v))
    config_get_int-itoa cfg key v def h small =
        let (out, e, p) = atoui-itoa [] v (omega arith) in
        let digits : All (λ c. is_digit c ≡ true) out = rw p.written p.is_digits in
        let filled : 0 < length out = rw p.written p.not_empty in
        let back : atoui_int 0 out ≡ some v = rw p.written (p.read_back_int small) in
        let (plus, runs, words, zero_line, kept) =
          config_load2-print_all map room fuel cfg (bare key out ∷ [])
            ((h, digits-IsBare out digits filled), tt) in
        let (minus, runs', words', zero_line', kept') =
          config_load2-print_all map room fuel cfg (bare key (b'-' ∷ out) ∷ [])
            ((h, (refl, digits-IsInside out digits)), tt) in
        (
          out,
          plus,
          minus,
          e,
          runs,
          config_get_int-some plus key def {value = out} (words key ∙ rw (bytes_eq_refl key))
              ∙ int_of-digits out digits
              ∙ rw back,
          runs',
          config_get_int-some minus key def {value = b'-' ∷ out}
                (words' key ∙ rw (bytes_eq_refl key))
              ∙ (unfold int_of in rw back),
        )
