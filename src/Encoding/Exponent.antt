-- ===== src/Encoding/Exponent.antt =====
-- The adjusted exponent and the masked number, as arithmetic on the fields of the number.
use air_tree.Common.{
  ℕ, ◌+◌, ◌-◌, ◌*◌, ◌/◌, ◌%◌, ◌^◌, ◌≤◌, ◌<◌, false, ◌≡◌, refl, arith, ltb, if◌then◌else◌, wrap_sub,
  masks, bit_xor_ones, bit_xor-zero, bit_or_below, lt→ltb, le→not_ltb, Bool-cases, inl, inr,
  bit_and_low11, bit_and_low8,
}
use air_tree.Encoding.{sign_fill, adjust_exponent64, adjust_exponent32, masked64, masked32}

-- Exponents below the bias count down from 0 and set the flag; the others count up.
abbrev pub adjusted : ℕ → ℕ → ℕ
adjusted bias e = if ltb e bias then bias - 1 - e else e - bias

abbrev pub below_bias : ℕ → ℕ → ℕ
below_bias bias e = if ltb e bias then 1 else 0

sign_fill_negative : (w x : ℕ) → 2 ^ (w - 1) ≤ x → sign_fill w x ≡ 2 ^ w - 1
unfolding sign_fill
sign_fill_negative w x h = rw (le→not_ltb (2 ^ (w - 1)) x h)

sign_fill_positive : (w x : ℕ) → x < 2 ^ (w - 1) → sign_fill w x ≡ 0
unfolding sign_fill
sign_fill_positive w x h = rw (lt→ltb x (2 ^ (w - 1)) h)

adjust_exponent64_lem :
    (e : ℕ) → e < 2 ^ 11 → adjust_exponent64 false e ≡ (adjusted 1023 e, below_bias 1023 e)
unfolding adjust_exponent64
adjust_exponent64_lem e h = elim (Bool-cases (ltb e 1023)) [
  | inl below ↦
      rw
        (
          sign_fill_negative 64 (wrap_sub 64 e 1023) (ground arith),
          bit_xor_ones 64 (wrap_sub 64 e 1023) (omega arith),
        )
        (rw bit_and_low11 (ground arith))
  | inr above ↦
      rw (sign_fill_positive 64 (wrap_sub 64 e 1023) (ground arith), bit_xor-zero)
        (rw bit_and_low11 (ground arith))
]

adjust_exponent32_lem :
    (e : ℕ) → e < 2 ^ 8 → adjust_exponent32 e ≡ (adjusted 127 e, below_bias 127 e)
unfolding adjust_exponent32
adjust_exponent32_lem e h = elim (Bool-cases (ltb e 127)) [
  | inl below ↦
      rw
        (
          sign_fill_negative 32 (wrap_sub 32 e 127) (ground arith),
          bit_xor_ones 32 (wrap_sub 32 e 127) (omega arith),
        )
        (rw bit_and_low8 (ground arith))
  | inr above ↦
      rw (sign_fill_positive 32 (wrap_sub 32 e 127) (ground arith), bit_xor-zero)
        (rw bit_and_low8 (ground arith))
]

-- `fp` with the fields s, e and f, masked.
module _ (s e f : ℕ) (hs : s < 2) where
  pub masked64_lem :
      e < 2 ^ 11
      → f < 2 ^ 52
      → masked64 false (s * 2 ^ 63 + e * 2 ^ 52 + f)
        ≡ (adjusted 1023 e * 2 ^ 52 + f, below_bias 1023 e)
  unfolding masked64
  masked64_lem he hf =
      let exponent : (s * 2 ^ 63 + e * 2 ^ 52 + f) / 2 ^ 52 % 2 ^ 11 ≡ e = omega arith in
      let fraction : (s * 2 ^ 63 + e * 2 ^ 52 + f) % 2 ^ 52 ≡ f = omega arith in
      let whole : adjusted 1023 e * 2 ^ 52 % 2 ^ 64 ≡ adjusted 1023 e * 2 ^ 52 = ground arith in
      simp masks (
        rw
          (
            exponent,
            fraction,
            adjust_exponent64_lem e he,
            whole,
            bit_or_below 52 (adjusted 1023 e) f hf,
          )
          refl)

  pub masked32_lem :
      e < 2 ^ 8
      → f < 2 ^ 23
      → masked32 (s * 2 ^ 31 + e * 2 ^ 23 + f) ≡ (adjusted 127 e * 2 ^ 23 + f, below_bias 127 e)
  unfolding masked32
  masked32_lem he hf =
      let exponent : (s * 2 ^ 31 + e * 2 ^ 23 + f) / 2 ^ 23 % 2 ^ 8 ≡ e = omega arith in
      let fraction : (s * 2 ^ 31 + e * 2 ^ 23 + f) % 2 ^ 23 ≡ f = omega arith in
      let whole : adjusted 127 e * 2 ^ 23 % 2 ^ 32 ≡ adjusted 127 e * 2 ^ 23 = ground arith in
      simp masks (
        rw
          (
            exponent,
            fraction,
            adjust_exponent32_lem e he,
            whole,
            bit_or_below 23 (adjusted 127 e) f hf,
          )
          refl)
