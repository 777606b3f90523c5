-- ===== src/Config/Get.antt =====
-- The getters of src/config.c. `none` is undefined behaviour: a `NULL` value that is dereferenced,
-- or an `int` that overflows.
use libhelp.Base.{
  ℕ, ◌+◌, ◌-◌, ◌*◌, ◌%◌, ◌^◌, Bool, true, false, ◌&&◌, ◌||◌, Option, none, some, [], ◌∷◌, Bytes,
  ◌==◌, within, leb, ltb, get_or, drop, if◌then◌else◌, ℤ, pos, negsuc, neg_ℕ,
}
use libhelp.Config.Judy.{Word, Judy, Memory}
use libhelp.Config.Types.{Config}
use libhelp.Str.{atoui, atoui_int}

-- the value as `config_get_int` reads it
unfoldable pub int_of : Bytes → Option ℤ
int_of k =
    if get_or k 0 0 == b'-'
    then (elim (atoui_int 0 (drop 1 k)) [ none ↦ none | some rc ↦ some (neg_ℕ rc) ])
    else (elim (atoui_int 0 k) [ none ↦ none | some rc ↦ some (pos rc) ])

-- the test of `config_get_bool`, byte by byte up to the NUL
unfoldable pub is_yes : Bytes → Bool
is_yes k = get_or k 0 0 == b'y' && get_or k 1 0 == b'e' && get_or k 2 0 == b's' && get_or k 3 0 == 0

-- The C library's `strtol(k, NULL, 16)`, as far as `config_get_hex` uses it.
is_space : ℕ → Bool
is_space c = c == b' ' || within 9 13 c

skip_space : Bytes → Bytes
unfolding is_space
skip_space [] = []
skip_space (c ∷ cs) = if is_space c then skip_space cs else c ∷ cs

hex_digit : ℕ → Option ℕ
hex_digit c =
    if within b'0' b'9' c
    then some (c - b'0')
    else if within b'a' b'f' c
    then some (c - b'a' + 10)
    else if within b'A' b'F' c
    then some (c - b'A' + 10)
    else none

hex_digits : ℕ → Bytes → ℕ
unfolding hex_digit
hex_digits n [] = n
hex_digits n (c ∷ cs) = elim (hex_digit c) [ none ↦ n | some d ↦ hex_digits (n * 16 + d) cs ]

skip_prefix : Bytes → Bytes
skip_prefix (c ∷ d ∷ cs) = if c == b'0' && (d == b'x' || d == b'X') then cs else c ∷ d ∷ cs
skip_prefix s = s

-- a `long` that stays in its range
abbrev long_of : Bool → ℕ → ℤ
long_of true n = if leb n (2 ^ 63) then neg_ℕ n else neg_ℕ (2 ^ 63)
long_of false n = if ltb n (2 ^ 63) then pos n else pos (2 ^ 63 - 1)

unfoldable pub strtol16 : Bytes → ℤ
unfolding skip_space hex_digits skip_prefix
strtol16 k =
    let s = skip_space k in
    let negative = get_or s 0 0 == b'-' in
    let unsigned = if negative || get_or s 0 0 == b'+' then drop 1 s else s in
    long_of negative (hex_digits 0 (skip_prefix unsigned))

-- a word of 32 bits as an `int`
abbrev signed32 : ℕ → ℤ
signed32 w = if ltb w (2 ^ 31) then pos w else negsuc (2 ^ 32 - w - 1)

-- `long` to `int`: the low 32 bits
unfoldable pub to_int : ℤ → ℤ
to_int (pos n) = signed32 (n % 2 ^ 32)
to_int (negsuc n) = signed32 (2 ^ 32 - 1 - n % 2 ^ 32)

-- the default without a slot, a fault at `NULL`, or what `read` makes of the string
abbrev pub fetch {ℓ} : {A : Type ℓ} → Option Word → A → (Bytes → Option A) → Option A
fetch none def read = some def
fetch (some none) def read = none
fetch (some (some k)) def read = read k

module _ {j : Judy} {m : Memory} where
  -- the word of the key, which may be `NULL`, or the default
  unfoldable pub config_get_str : Config j m → Bytes → Word → Word
  config_get_str cfg key def = elim (j.get cfg.entries key) [ none ↦ def | some w ↦ w ]

  unfoldable pub config_get_int : Config j m → Bytes → ℤ → Option ℤ
  unfolding int_of
  config_get_int cfg key def = fetch (j.get cfg.entries key) def int_of

  unfoldable pub config_get_hex : Config j m → Bytes → ℤ → Option ℤ
  unfolding strtol16 to_int
  config_get_hex cfg key def = fetch (j.get cfg.entries key) def (λ k. some (to_int (strtol16 k)))

  unfoldable pub config_get_uint : Config j m → Bytes → ℕ → Option ℕ
  config_get_uint cfg key def = fetch (j.get cfg.entries key) def (λ k. some (atoui 0 k))

  unfoldable pub config_get_bool : Config j m → Bytes → ℤ → Option ℤ
  unfolding is_yes
  config_get_bool cfg key def =
      fetch (j.get cfg.entries key) def (λ k. some (if is_yes k then pos 1 else pos 0))

  -- `config->conf`: the address and the text of the copy, if there is one
  unfoldable pub config_get_conf : Config j m → Option (ℕ × Bytes)
  config_get_conf cfg = cfg.conf
