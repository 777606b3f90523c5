-- ===== src/Config/RoundTrip.antt =====
-- The parser of src/config.c reads back the texts of Config/Text.antt, a piece of a line at a time.
use libhelp.Base.{
  ℕ, ◌≡◌, refl, ◌∙◌, true, false, [], ◌∷◌, ◌++◌, append-nil, append_assoc, arith, Bytes, le→ltb,
  ◌==◌, length, All,
}
use libhelp.Config.Insert.{config_key_max_size}
use libhelp.Config.Judy.{Judy, Memory}
use libhelp.Config.Switch.{achar, step_in, parse}
use libhelp.Config.Text.{IsKey, IsQuoted, nil, plain, escaped, IsInside}
use libhelp.Config.Types.{
  State, space_s, comment_s, param_key_s, param_key_sp_s, param_value_s, param_qt_value_s, Config,
  Locals, advance,
}

abbrev pub at : State → ℕ → Bytes → Bytes → Locals
at s n k v = record { state = s; line = n; pkey = k; pvalue = v }

module _ {j : Judy} {m : Memory} (fuel : ℕ) where
  pub parse_advance :
      (c : ℕ) (rest : Bytes) (cfg cfg' : Config j m) (l l' : Locals)
      → ((ahead : ℕ) → step_in l.state fuel cfg l c ahead ≡ advance cfg' l')
      → parse fuel (c ∷ rest) cfg l ≡ parse fuel rest cfg' l'
  unfolding parse
  parse_advance c [] cfg cfg' l l' h = rw (h 0)
  parse_advance c (d ∷ rest) cfg cfg' l l' h = rw (h d)

  pub parse-key :
      (k rest : Bytes) (cfg : Config j m) (n : ℕ) (key value : Bytes)
      → All (λ c. achar c ≡ true) k
      → parse fuel (k ++ rest) cfg (at param_key_s n key value)
        ≡ parse fuel rest cfg (at param_key_s n (key ++ k) value)
  parse-key [] rest cfg n key value h = rw append-nil
  parse-key (c ∷ k) rest cfg n key value h =
      parse_advance c (k ++ rest) cfg cfg (at param_key_s n key value)
        (at param_key_s n (key ++ (c ∷ [])) value) (λ ahead. unfold step_in in rw h.0)
      ∙ parse-key k rest cfg n (key ++ (c ∷ [])) value h.1
      ∙ rw append_assoc

  -- a key and the blank behind it, from the start of a line
  pub parse-IsKey :
      (k rest : Bytes) (cfg : Config j m) (n : ℕ) (key value : Bytes)
      → IsKey k
      → parse fuel (k ++ (b' ' ∷ rest)) cfg (at space_s n key value)
        ≡ parse fuel rest cfg (at param_key_sp_s n k value)
  parse-IsKey [] rest cfg n key value h = absurd (h.not_empty refl)
  parse-IsKey (c ∷ k) rest cfg n key value h =
      parse_advance c (k ++ (b' ' ∷ rest)) cfg cfg (at space_s n key value)
        (at param_key_s n (c ∷ []) value) (λ ahead. unfold step_in in rw h.chars.0)
      ∙ parse-key k (b' ' ∷ rest) cfg n (c ∷ []) value h.chars.1
      ∙ parse_advance b' ' rest cfg cfg (at param_key_s n (c ∷ k) value)
          (at param_key_sp_s n (c ∷ k) value)
          (λ ahead.
            unfold step_in achar in rw (le→ltb config_key_max_size (length (c ∷ k)) h.short))

  parse-escaped :
      (rest : Bytes) (cfg : Config j m) (n : ℕ) (key value : Bytes)
      → parse fuel (b'\\' ∷ b'"' ∷ rest) cfg (at param_qt_value_s n key value)
        ≡ parse fuel rest cfg (at param_qt_value_s n key ((value ++ (b'\\' ∷ [])) ++ (b'"' ∷ [])))
  unfolding parse step_in
  parse-escaped rest cfg n key value = refl

  pub parse-IsQuoted :
      {v : Bytes} (rest : Bytes) (cfg : Config j m) (n : ℕ) (key value : Bytes)
      → IsQuoted v
      → parse fuel (v ++ rest) cfg (at param_qt_value_s n key value)
        ≡ parse fuel rest cfg (at param_qt_value_s n key (value ++ v))
  parse-IsQuoted rest cfg n key value nil = rw append-nil
  parse-IsQuoted rest cfg n key value (plain {c} {s} h q) =
      parse_advance c (s ++ rest) cfg cfg (at param_qt_value_s n key value)
        (at param_qt_value_s n key (value ++ (c ∷ []))) (λ ahead. unfold step_in in ground arith)
      ∙ parse-IsQuoted rest cfg n key (value ++ (c ∷ [])) q
      ∙ rw append_assoc
  parse-IsQuoted rest cfg n key value (escaped {s} q) =
      parse-escaped (s ++ rest) cfg n key value
      ∙ parse-IsQuoted rest cfg n key ((value ++ (b'\\' ∷ [])) ++ (b'"' ∷ [])) q
      ∙ simp append_assoc

  pub parse-IsInside :
      (v rest : Bytes) (cfg : Config j m) (n : ℕ) (key value : Bytes)
      → All IsInside v
      → parse fuel (v ++ rest) cfg (at param_value_s n key value)
        ≡ parse fuel rest cfg (at param_value_s n key (value ++ v))
  parse-IsInside [] rest cfg n key value h = rw append-nil
  parse-IsInside (c ∷ v) rest cfg n key value h =
      parse_advance c (v ++ rest) cfg cfg (at param_value_s n key value)
        (at param_value_s n key (value ++ (c ∷ []))) (λ ahead. unfold step_in in ground arith)
      ∙ parse-IsInside v rest cfg n key (value ++ (c ∷ [])) h.1
      ∙ rw append_assoc

  pub parse-comment :
      (s rest : Bytes) (cfg : Config j m) (n : ℕ) (key value : Bytes)
      → All (λ c. (c == b'\n') ≡ false) s
      → parse fuel (s ++ rest) cfg (at comment_s n key value)
        ≡ parse fuel rest cfg (at comment_s n key value)
  parse-comment [] rest cfg n key value h = refl
  parse-comment (c ∷ s) rest cfg n key value h =
      parse_advance c (s ++ rest) cfg cfg (at comment_s n key value) (at comment_s n key value)
        (λ ahead. unfold step_in in rw h.0)
      ∙ parse-comment s rest cfg n key value h.1
