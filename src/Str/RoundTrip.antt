-- ===== src/Str/RoundTrip.antt =====
-- What `itoa` prints, `atoui` reads back.
use libhelp.Base.{
  ℕ, zero, suc, ◌+◌, ◌*◌, ◌/◌, ◌%◌, ◌^◌, ◌≤◌, ◌<◌, ◌≡◌, refl, ap, ◌∙◌, inl, inr, false, true, some,
  [], ◌∷◌, ◌++◌, append-nil, append_assoc, arith, Bytes, All, Bool-cases, ◌==◌, length,
}
use libhelp.Str.{is_digit, atoui, atoui_int, itoa_fill, emit, itoa, itoa_digits}
use native.Mathlib.Nat.{pow-suc}

emit-append : (k p : Bytes) → emit k p ≡ p ++ k
unfolding emit
emit-append [] p = simp append-nil
emit-append (c ∷ k) p = emit-append k (p ++ (c ∷ [])) ∙ append_assoc p (c ∷ []) k

pub atoui-digit :
    (u d : ℕ) (s : Bytes) → d < 10 → atoui u ((d + b'0') ∷ s) ≡ atoui ((u * 10 + d) % 2 ^ 32) s
unfolding atoui
atoui-digit u d s h = ground arith

atoui_int-digit :
    (u d : ℕ) (s : Bytes)
    → d < 10
    → u * 10 + d < 2 ^ 31
    → atoui_int u ((d + b'0') ∷ s) ≡ atoui_int (u * 10 + d) s
unfolding atoui_int
atoui_int-digit u d s h small = ground arith

-- What the first loop of `itoa` leaves: the digits of `n` on top of the stack `k`.
record Filled (n : ℕ) (k : Bytes) (fuel : ℕ) (s : Bytes) : Type 0 where
  value : n < 2 ^ 32 → atoui 0 s ≡ atoui n k
  int_value : n < 2 ^ 31 → atoui_int 0 s ≡ atoui_int n k
  size : length s ≤ length k + fuel
  some_digit : length k < length s
  digits : All (λ c. is_digit c ≡ true) k → All (λ c. is_digit c ≡ true) s

last_digit :
    (n : ℕ) (k : Bytes) (fuel : ℕ)
    → (n / 10 == 0) ≡ true
    → Filled n k (suc fuel) ((n % 10 + b'0') ∷ k)
unfolding is_digit
last_digit n k fuel h = record {
  value = λ small. atoui-digit 0 (n % 10) k (omega arith) ∙ ap (λ u. atoui u k) (ground arith);
  int_value = λ small.
      atoui_int-digit 0 (n % 10) k (omega arith) (omega arith)
      ∙ ap (λ u. atoui_int u k) (ground arith);
  size = omega arith;
  some_digit = omega arith;
  digits = λ all. (ground arith, all);
}

more_digits :
    (n : ℕ) (k : Bytes) (fuel : ℕ) {s : Bytes}
    → Filled (n / 10) ((n % 10 + b'0') ∷ k) fuel s
    → Filled n k (suc fuel) s
unfolding is_digit
more_digits n k fuel f = record {
  value = λ small.
      f.value (omega arith)
      ∙ atoui-digit (n / 10) (n % 10) k (omega arith)
      ∙ ap (λ u. atoui u k) (omega arith);
  int_value = λ small.
      f.int_value (omega arith)
      ∙ atoui_int-digit (n / 10) (n % 10) k (omega arith) (omega arith)
      ∙ ap (λ u. atoui_int u k) (omega arith);
  size = omega (arith, f.size);
  some_digit = omega (arith, f.some_digit);
  digits = λ all. f.digits (ground arith, all);
}

more_fuel : (fuel n : ℕ) → n < 10 ^ suc fuel → (n / 10 == 0) ≡ false → 0 < fuel
more_fuel zero n small more = absurd (ground arith)
more_fuel (suc fuel) n small more = omega arith

-- Fuel for as many digits as the number has is enough.
itoa_fill-Filled :
    (fuel n : ℕ) (k : Bytes)
    → n < 10 ^ fuel
    → 0 < fuel
    → (s : Bytes) × (itoa_fill fuel n k ≡ some s) × Filled n k fuel s
unfolding itoa_fill
itoa_fill-Filled zero n k small pos = absurd (omega arith)
itoa_fill-Filled (suc fuel) n k small pos = elim (Bool-cases (n / 10 == 0)) [
  | inl done ↦ ((n % 10 + b'0') ∷ k, rw done refl, last_digit n k fuel done)
  | inr more ↦
      let (s, e, f) =
        itoa_fill-Filled fuel (n / 10) ((n % 10 + b'0') ∷ k) (omega (arith, pow-suc 10 fuel))
          (more_fuel fuel n small more) in
      (s, rw more e, more_digits n k fuel f)
]

-- What `itoa` writes behind `p` for a 32-bit number.
pub record Prints (p : Bytes) (v : ℕ) (out : Bytes) : Type 0 where
  pub text : Bytes
  pub written : out ≡ p ++ text
  pub is_digits : All (λ c. is_digit c ≡ true) text
  pub not_empty : 0 < length text
  pub fits : length text ≤ itoa_digits
  pub read_back : atoui 0 text ≡ v
  pub read_back_int : v < 2 ^ 31 → atoui_int 0 text ≡ some v

-- `itoa` ends for every value below 2^32 and writes behind `p` between 1 and 20 decimal digits, from
-- which `atoui` reads the value back, at type `int` too if the value is below 2^31.
pub atoui-itoa :
    (p : Bytes) (v : ℕ) → v < 2 ^ 32 → (out : Bytes) × (itoa p v ≡ some out) × Prints p v out
unfolding itoa atoui atoui_int
atoui-itoa p v small =
    let (s, e, f) = itoa_fill-Filled itoa_digits v [] (omega arith) (omega arith) in
    (
      p ++ s,
      rw e (rw emit-append refl),
      record {
        text = s;
        written = refl;
        is_digits = f.digits tt;
        not_empty = f.some_digit;
        fits = f.size;
        read_back = f.value small;
        read_back_int = f.int_value;
      },
    )
