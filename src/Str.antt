-- ===== src/Str.antt =====
-- The number macros of src/str.h: `atoui`, `itoa` and `itoa64`.
-- `atoui` is expanded at two types: at `unsigned int` the sum wraps modulo 2^32, at `int` an
-- overflow is undefined, which is `none` here. The buffer `_b` of `itoa` is a stack, the byte
-- behind `_k` on top; fuel bounds the digits written, and `none` means that it ran out.
pub mod RoundTrip
pub mod Append
pub mod Compare
mod Tests
use libhelp.Base.{
  ℕ, zero, suc, ◌+◌, ◌-◌, ◌*◌, ◌/◌, ◌%◌, ◌^◌, Bool, Option, none, some, [], ◌∷◌, ◌++◌, Bytes, ltb,
  ◌==◌, within, get_or, if◌then◌else◌,
}

-- the stop test of `atoui`, negated
unfoldable pub is_digit : ℕ → Bool
is_digit c = within b'0' b'9' c

-- `atoui(_u, _c)` for an unsigned `_u`, from the value read so far
unfoldable pub atoui : ℕ → Bytes → ℕ
unfolding is_digit
atoui u [] = u
atoui u (c ∷ cs) = if is_digit c then atoui ((u * 10 + (c - b'0')) % 2 ^ 32) cs else u

-- `atoui(_u, _c)` for an `int` `_u`
unfoldable pub atoui_int : ℕ → Bytes → Option ℕ
unfolding is_digit
atoui_int u [] = some u
atoui_int u (c ∷ cs) =
    let next = u * 10 + (c - b'0') in
    let rest = atoui_int next cs in
    if is_digit c then if ltb next (2 ^ 31) then rest else none else some u

-- the first loop of `itoa`
itoa_fill : ℕ → ℕ → Bytes → Option Bytes
itoa_fill zero n k = none
itoa_fill (suc fuel) n k =
    let pushed = (n % 10 + b'0') ∷ k in
    let rest = itoa_fill fuel (n / 10) pushed in if n / 10 == 0 then some pushed else rest

-- the first loop of `itoa64`, over the alphabet `ch`
itoa64_fill : Bytes → ℕ → ℕ → Bytes → Option Bytes
itoa64_fill ch zero n k = none
itoa64_fill ch (suc fuel) n k =
    let pushed = get_or ch (n % 2 ^ 6) 0 ∷ k in
    let rest = itoa64_fill ch fuel (n / 2 ^ 6) pushed in
    if n / 2 ^ 6 == 0 then some pushed else rest

-- the second loop of both: `while (_k > _b) *_p++ = *(--_k)`
emit : Bytes → Bytes → Bytes
emit [] p = p
emit (c ∷ k) p = emit k (p ++ (c ∷ []))

abbrev flush : Bytes → Option Bytes → Option Bytes
flush p none = none
flush p (some k) = some (emit k p)

-- Digits of a 64-bit number: the buffer is `ITOA_BUF_SIZE`, 22, bytes long.
abbrev pub itoa_digits : ℕ
itoa_digits = 20

abbrev pub itoa64_digits : ℕ
itoa64_digits = 11

-- `itoa`: `p` is what stands before `_p`
unfoldable pub itoa : Bytes → ℕ → Option Bytes
unfolding itoa_fill emit
itoa p v = flush p (itoa_fill itoa_digits v [])

-- `itoa64`
unfoldable pub itoa64 : Bytes → Bytes → ℕ → Option Bytes
unfolding itoa64_fill emit
itoa64 ch p v = flush p (itoa64_fill ch itoa64_digits v [])
