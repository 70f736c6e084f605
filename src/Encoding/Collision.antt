-- ===== src/Encoding/Collision.antt =====
-- The 8-bit code of a `double`: at the exponent 0 its variant of the adjusted exponent is 2047, so
-- that the numbers from 1 up to 2 share their code with the largest ones.
use air_tree.Common.{
  ℕ, ◌+◌, ◌-◌, ◌*◌, ◌/◌, ◌%◌, ◌^◌, ◌≤◌, ◌<◌, ◌≡◌, ◌∙◌, refl, sym, ap, arith, ltb, ◌==◌, masks,
  bit_or_below, true, false, bit_xor-zero, bit_and_low11, bit_and_low5, wrap_sub,
}
use Prim.Native.Nat.{min, max}
use air_tree.Encoding.{adjust_exponent64, masked64, zero_precision_8, first_one64, sign_fill}
use air_tree.Encoding.Bins.{first_one64-is_top}
use air_tree.Encoding.Codes.{create_internal_8bit}
use air_tree.Tle.{set_tle_components, get_tle_value_type}
use air_tree.Tle.Classify.{set_tle-class}

adjust_at_bias : adjust_exponent64 true 1023 ≡ (2047, 1)
unfolding adjust_exponent64
adjust_at_bias = refl

adjust_above : (e : ℕ) → 1023 < e → e < 2048 → (adjust_exponent64 true e).0 ≡ e - 1023
unfolding adjust_exponent64 sign_fill
adjust_above e low high =
    let test : ltb (wrap_sub 64 (wrap_sub 64 e 1023) 1) (2 ^ (64 - 1)) ≡ true = ground arith in
    rw (test, bit_xor-zero, bit_and_low11) (omega arith)

masked_lem :
    (s e f a : ℕ)
    → s < 2
    → e < 2 ^ 11
    → f < 2 ^ 52
    → a < 2 ^ 11
    → (adjust_exponent64 true e).0 ≡ a
    → (masked64 true (s * 2 ^ 63 + e * 2 ^ 52 + f)).0 ≡ a * 2 ^ 52 + f
unfolding masked64
masked_lem s e f a hs he hf ha adj =
    let exponent : (s * 2 ^ 63 + e * 2 ^ 52 + f) / 2 ^ 52 % 2 ^ 11 ≡ e = omega arith in
    let fraction : (s * 2 ^ 63 + e * 2 ^ 52 + f) % 2 ^ 52 ≡ f = omega arith in
    let whole : a * 2 ^ 52 % 2 ^ 64 ≡ a * 2 ^ 52 = omega arith in
    simp masks (rw (exponent, fraction, adj, whole) (bit_or_below 52 a f hf))

-- No leading zeros, and five ones behind the leading one.
code_of_ones :
    (first m : ℕ)
    → 0 < m
    → 61 ≤ first
    → m / 2 ^ max (first - 5) 50 % 32 ≡ 31
    → zero_precision_8 first m ≡ (0, 31)
unfolding zero_precision_8
code_of_ones first m pos high ones =
    let some_bit : (m == 0) ≡ false = ground arith in
    let zeros : min (61 - first) 7 ≡ 0 = omega arith in
    rw (some_bit, zeros, bit_and_low5 (m / 2 ^ max (first - 5) 50), ones) refl

create_internal_8bit_ones :
    (fp m first : ℕ)
    → (masked64 true fp).0 ≡ m
    → first_one64 m ≡ first
    → 0 < m
    → 61 ≤ first
    → m / 2 ^ max (first - 5) 50 % 32 ≡ 31
    → create_internal_8bit fp ≡ 31
unfolding create_internal_8bit
create_internal_8bit_ones fp m first masked at pos high ones =
    rw (masked, at, code_of_ones first m pos high ones) refl

-- Two numbers of the same sign get the same 8-bit code and the same class, where one lies from 1 up
-- to 2 and the other is at least 2 ^ 1008, whatever their fractions.
pub create_internal_8bit_collision :
    (s e f f' : ℕ)
    → s < 2
    → 2031 ≤ e
    → e < 2047
    → f < 2 ^ 52
    → f' < 2 ^ 52
    → (create_internal_8bit (s * 2 ^ 63 + 1023 * 2 ^ 52 + f)
        ≡ create_internal_8bit (s * 2 ^ 63 + e * 2 ^ 52 + f'))
      × (get_tle_value_type (set_tle_components (s * 2 ^ 63 + 1023 * 2 ^ 52 + f))
          ≡ get_tle_value_type (set_tle_components (s * 2 ^ 63 + e * 2 ^ 52 + f')))
create_internal_8bit_collision s e f f' hs low high hf hf' =
    (small ∙ sym large, ground (arith, set_tle-class s 1023 f hs, set_tle-class s e f' hs))
  where
    small : create_internal_8bit (s * 2 ^ 63 + 1023 * 2 ^ 52 + f) ≡ 31
    small =
        create_internal_8bit_ones _ (2047 * 2 ^ 52 + f) 62
          (masked_lem s 1023 f 2047 hs (omega arith) hf (omega arith)
            (ap (λ (t : ℕ × ℕ). t.0) adjust_at_bias))
          (first_one64-is_top _ 62 (omega arith) (omega arith) (omega arith)) (omega arith)
          (omega arith) (omega arith)

    large : create_internal_8bit (s * 2 ^ 63 + e * 2 ^ 52 + f') ≡ 31
    large =
        create_internal_8bit_ones _ ((e - 1023) * 2 ^ 52 + f') 61
          (masked_lem s e f' (e - 1023) hs (omega arith) hf' (omega arith)
            (adjust_above e (omega arith) (omega arith)))
          (first_one64-is_top _ 61 (omega arith) (omega arith) (omega arith)) (omega arith)
          (omega arith) (omega arith)
