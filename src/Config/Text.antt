-- ===== src/Config/Text.antt =====
-- Configuration texts that src/config.c reads without an error: lines with a quoted value, with a
-- bare value, with a comment, and blank ones.
use libhelp.Base.{
  ℕ, ◌≡◌, ◌≤◌, ◌≢◌, true, false, ◌||◌, Option, some, List, [], ◌∷◌, ◌++◌, Bytes, bytes_eq, ◌==◌,
  if◌then◌else◌, length, All,
}
use libhelp.Config.Insert.{config_key_max_size}
use libhelp.Config.Judy.{Word}
use libhelp.Config.Switch.{achar}

pub data Item : Type 0 where
  quoted : Bytes → Bytes → Item
  bare : Bytes → Bytes → Item
  comment : Bytes → Item
  blank : Item

-- the text of a line
abbrev pub print : Item → Bytes
print (quoted k v) = k ++ (b' ' ∷ b'"' ∷ (v ++ (b'"' ∷ b';' ∷ b'\n' ∷ [])))
print (bare k v) = k ++ (b' ' ∷ (v ++ (b';' ∷ b'\n' ∷ [])))
print (comment s) = b'#' ∷ (s ++ (b'\n' ∷ []))
print blank = b'\n' ∷ []

abbrev pub print_all : List Item → Bytes
print_all [] = []
print_all (x ∷ xs) = print x ++ print_all xs

-- what the line does to the word of key `i`
abbrev pub give : Item → Bytes → Option Word → Option Word
give (quoted k v) i old = if bytes_eq k i then some (some v) else old
give (bare k v) i old = if bytes_eq k i then some (some v) else old
give (comment s) i old = old
give blank i old = old

-- the word of key `i` after the lines: the last one that names it counts
abbrev pub give_all : List Item → Bytes → Option Word → Option Word
give_all [] i old = old
give_all (x ∷ xs) i old = give_all xs i (give x i old)

pub record IsKey (k : Bytes) : Type 0 where
  pub chars : All (λ c. achar c ≡ true) k
  pub not_empty : k ≢ []
  pub short : length k ≤ config_key_max_size

-- A quoted value: quotes stand behind a backslash, and no newline in it. Both bytes of `\"` are kept.
pub data IsQuoted : Bytes → Type 0 where
  nil : IsQuoted []
  plain :
      {c : ℕ} {s : Bytes}
      → (c == b'"' || c == b'\n' || c == b'\\') ≡ false
      → IsQuoted s
      → IsQuoted (c ∷ s)
  escaped : {s : Bytes} → IsQuoted s → IsQuoted (b'\\' ∷ b'"' ∷ s)

-- the bytes of a bare value after its first
abbrev pub IsInside : ℕ → Type 0
IsInside c = (c == b';' || c == b'\n') ≡ false

-- a first byte that does not begin a quoted value, a copy or a blank
abbrev pub IsFirst : ℕ → Type 0
IsFirst c = (c == b' ' || c == b'\t' || c == b'"' || c == b'@' || c == b'\r' || c == b'\n') ≡ false

abbrev pub IsBare : Bytes → Type 0
IsBare [] = ⊥
IsBare (c ∷ s) = IsFirst c × All IsInside s

abbrev pub IsItem : Item → Type 0
IsItem (quoted k v) = IsKey k × IsQuoted v
IsItem (bare k v) = IsKey k × IsBare v
IsItem (comment s) = All (λ c. (c == b'\n') ≡ false) s
IsItem blank = Unit
