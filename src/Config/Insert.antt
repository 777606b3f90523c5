-- ===== src/Config/Insert.antt =====
-- The writes into the Judy array: one key with its value, and the copy of all keys with a prefix.
use libhelp.Base.{
  Bool, true, ◌&&◌, ◌==◌, [], ◌∷◌, c_string, ℕ, zero, suc, Option, none, some, ◌++◌, Bytes, ltb,
  if◌then◌else◌, length, drop,
}
use libhelp.Config.Judy.{Word, Judy, Memory}
use libhelp.Config.Types.{Config}

abbrev pub config_key_max_size : ℕ
config_key_max_size = 64

pub data Stored (j : Judy) (m : Memory) : Type 0 where
  stored : Config j m → Stored j m
  failed : Config j m → Stored j m
  undefined : Stored j m
  out_of_fuel : Stored j m

-- what `strlen` and `pool_cpy` read of the word of a key
abbrev pub c_word : Word → Word
c_word none = none
c_word (some value) = some (c_string value)

-- `strncmp(index, name, n) == 0` for the `n` bytes of `name`: the two may also end at the same NUL
unfoldable pub strncmp_equal : Bytes → Bytes → Bool
strncmp_equal [] index = true
strncmp_equal (c ∷ name) [] = c == 0
strncmp_equal (c ∷ name) (d ∷ index) = c == d && strncmp_equal name index

module _ {j : Judy} {m : Memory} where
  infixl 5 ◌>>=◌
  abbrev pub ◌>>=◌ : Stored j m → (Config j m → Stored j m) → Stored j m
  stored cfg >>= f = f cfg
  failed cfg >>= f = failed cfg
  undefined >>= f = undefined
  out_of_fuel >>= f = out_of_fuel

  -- `*pw = pool_cpy(config->pool, value, ...)` and the test of `*pw`, after JSLI
  unfoldable pub fill_slot : Config j m → Bytes → Word → Stored j m
  fill_slot cfg key none = undefined
  fill_slot cfg key (some value) =
      let (done, heap) = m.cpy cfg.heap value in
      if done
      then stored (record cfg { entries = j.store cfg.entries key (some value); heap = heap })
      else failed (record cfg { entries = j.store cfg.entries key none; heap = heap })

  -- JSLI and the store: a `NULL` value is dereferenced by `strlen`
  unfoldable pub insert : Config j m → Bytes → Word → Stored j m
  unfolding fill_slot
  insert cfg key value = elim (j.ins cfg.entries key) [
    | none ↦ failed cfg
    | some a ↦ fill_slot (record cfg { entries = a }) key value
  ]

  -- The loop over the keys that begin with `name`: `key` and `index` are 65 bytes long. When `name` has a
  -- NUL, the key that ends there is the only one, and the NUL of `name` behind it is `index + n`.
  unfoldable pub copy_loop : ℕ → Bytes → Bytes → Config j m → Option (Bytes × Word) → Stored j m
  unfolding strncmp_equal insert
  copy_loop zero pkey name cfg pw = out_of_fuel
  copy_loop (suc fuel) pkey name cfg none = stored cfg
  copy_loop (suc fuel) pkey name cfg (some (index, value)) =
      let key = pkey ++ drop (length name) index in
      let rest : Stored j m = do
        cfg' ← insert cfg key (c_word value)
        copy_loop fuel pkey name cfg' (j.next cfg'.entries index)
      in if strncmp_equal name index
        then if ltb config_key_max_size (length key) then undefined else rest
        else stored cfg
