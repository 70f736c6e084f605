-- ===== src/Reconstruct/Rebuild.antt =====
-- Reconstructing the fields of a code, and filing the number at the edge of a bin.
use air_tree.Common.{
  ℕ, ◌+◌, ◌-◌, ◌*◌, ◌/◌, ◌%◌, ◌^◌, ◌≤◌, ◌<◌, bit_and, bit_or, ◌≡◌, ◌∙◌, refl, arith, ◌==◌,
  if◌then◌else◌, shl, shr, bit_or_pair, bit_or_shifted, bit_and_mask, bit_and_low1, bit_and_low4,
  Bool-cases, inl, inr,
}
use Prim.Native.Nat.{min}
use native.Mathlib.Nat.{one-le-pow, le_refl}
use air_tree.Encoding.Exponent.{adjusted, below_bias}
use air_tree.Encoding.Bins.{InBin, shift_of, zero_precision-InBin, first_one64-IsFirst}
use air_tree.Encoding.Codes.Layout.{masked_of64, fields64, layout}
use air_tree.Reconstruct.{double_layout, spread, stream, rebuild, re_construct}
use air_tree.Reconstruct.Edge.{edge, spread-stream}

-- The exponent field of a number whose adjusted exponent is `x`.
abbrev pub exponent_of : ℕ → ℕ → ℕ
exponent_of g x = if g == 1 then 1022 - x else 1023 + x

join :
    (s a n : ℕ)
    → s < 2
    → a < 2 ^ 11
    → n < 2 ^ 52
    → bit_or (bit_or (shl 64 s 63) (shl 64 a 52)) (n % 2 ^ 64) ≡ s * 2 ^ 63 + a * 2 ^ 52 + n
join s a n hs ha hn =
    let upper : s * 2 ^ 63 + a * 2 ^ 52 % 2 ^ 64 ≡ (s * 2 ^ 11 + a) * 2 ^ 52 = omega arith in
    let low : n % 2 ^ 64 ≡ n = omega arith in
    rw (bit_or_pair 64 63 s (a * 2 ^ 52 % 2 ^ 64) (omega arith) (omega arith), upper, low)
      (bit_or_shifted 52 (s * 2 ^ 11 + a) n hn ∙ omega arith)

rebuild_lem :
    (s g x n : ℕ)
    → s < 2
    → x ≤ (if g == 1 then 1022 else 1023)
    → n < 2 ^ 52
    → rebuild double_layout s g x n ≡ s * 2 ^ 63 + exponent_of g x * 2 ^ 52 + n
unfolding rebuild
rebuild_lem s g x n hs hx hn = elim (Bool-cases (g == 1)) [
  | inl negative ↦
      let exponent : min (1023 - (x + 1)) 2046 ≡ 1022 - x = omega arith in
      rw (negative, exponent) (join s (1022 - x) n hs (omega arith) hn)
  | inr positive ↦
      let bound : x ≤ 1023 = rw positive at hx in
      let exponent : min (1023 + (x + 0)) 2046 ≡ 1023 + x = omega arith in
      rw (positive, exponent) (join s (1023 + x) n hs (omega arith) hn)
]

-- The number at the lower edge of a bin.
abbrev pub edge_number : ℕ → ℕ → ℕ → ℕ → ℕ → ℕ
edge_number p s g z P =
    s * 2 ^ 63 + exponent_of g (edge 61 p z P / 2 ^ 52) * 2 ^ 52 + edge 61 p z P % 2 ^ 52

module _ (p s g z P : ℕ) (hp : p ≤ 14) (hs : s < 2) (hz : z ≤ 15) (hP : P < 2 ^ p)
    (reachable : edge 61 p z P / 2 ^ 52 ≤ (if g == 1 then 1022 else 1023)) where
  rebuild-stream :
      let sp = spread double_layout (stream p z P).0 (stream p z P).1 in
      rebuild double_layout s g sp.0 sp.1 ≡ edge_number p s g z P
  rebuild-stream =
      let sp =
        spread-stream double_layout 61 p z P (omega arith) (omega arith) refl hp (omega arith) hz
          hP in
      let exponent : (spread double_layout (stream p z P).0 (stream p z P).1).0
          ≡ edge 61 p z P / 2 ^ 52 =
        omega arith in
      let mantissa : (spread double_layout (stream p z P).0 (stream p z P).1).1
          ≡ edge 61 p z P % 2 ^ 52 =
        omega arith in
      rw (exponent, mantissa)
        (rebuild_lem s g (edge 61 p z P / 2 ^ 52) (edge 61 p z P % 2 ^ 52) hs reachable
          (omega arith))

  pub re_construct_13 :
      p ≡ 7 → g < 2 → re_construct double_layout (layout 7 s g (z, P)) 13 ≡ edge_number p s g z P
  unfolding re_construct
  re_construct_13 e hg =
      let code = layout 7 s g (z, P) in
      let narrow : P < 2 ^ 7 = rw e at hP in
      let sign : bit_and (shr code 12) 0x1 ≡ s = bit_and_low1 (shr code 12) ∙ omega arith in
      let exp_sign : bit_and (shr code 11) 0x1 ≡ g = bit_and_low1 (shr code 11) ∙ omega arith in
      let magnitude : bit_and (shr code 7) 0xF ≡ z = bit_and_low4 (shr code 7) ∙ omega arith in
      let precision : bit_and code (2 ^ 7 - 1) ≡ P = bit_and_mask 7 code ∙ omega arith in
      rw (sign, exp_sign, magnitude, precision, ← e) rebuild-stream

  pub re_construct_16 :
      p ≡ 10 → g < 2 → re_construct double_layout (layout 10 s g (z, P)) 16 ≡ edge_number p s g z P
  unfolding re_construct
  re_construct_16 e hg =
      let code = layout 10 s g (z, P) in
      let narrow : P < 2 ^ 10 = rw e at hP in
      let sign : bit_and (shr code 15) 0x1 ≡ s = bit_and_low1 (shr code 15) ∙ omega arith in
      let exp_sign : bit_and (shr code 14) 0x1 ≡ g = bit_and_low1 (shr code 14) ∙ omega arith in
      let magnitude : bit_and (shr code 10) 0xF ≡ z = bit_and_low4 (shr code 10) ∙ omega arith in
      let precision : bit_and code (2 ^ 10 - 1) ≡ P = bit_and_mask 10 code ∙ omega arith in
      rw (sign, exp_sign, magnitude, precision, ← e) rebuild-stream

  pub re_construct_20 :
      p ≡ 14 → g < 2 → re_construct double_layout (layout 14 s g (z, P)) 20 ≡ edge_number p s g z P
  unfolding re_construct
  re_construct_20 e hg =
      let code = layout 14 s g (z, P) in
      let narrow : P < 2 ^ 14 = rw e at hP in
      let sign : bit_and (shr code 19) 0x1 ≡ s = bit_and_low1 (shr code 19) ∙ omega arith in
      let exp_sign : bit_and (shr code 18) 0x1 ≡ g = bit_and_low1 (shr code 18) ∙ omega arith in
      let magnitude : bit_and (shr code 14) 0xF ≡ z = bit_and_low4 (shr code 14) ∙ omega arith in
      let precision : bit_and code (2 ^ 14 - 1) ≡ P = bit_and_mask 14 code ∙ omega arith in
      rw (sign, exp_sign, magnitude, precision, ← e) rebuild-stream

-- Filing the number at the lower edge of a bin again.
module _ (p g z P : ℕ) (hp : p ≤ 14) (hg : g < 2) (hz : z ≤ 15) (hP : P < 2 ^ p)
    (reachable : edge 61 p z P / 2 ^ 52 ≤ (if g == 1 then 1022 else 1023)) where
  pub edge_exponent-lt : exponent_of g (edge 61 p z P / 2 ^ 52) < 2047
  edge_exponent-lt = ground arith

  pub edge-adjusted :
      adjusted 1023 (exponent_of g (edge 61 p z P / 2 ^ 52)) ≡ edge 61 p z P / 2 ^ 52
  edge-adjusted = ground arith

  pub edge-below_bias : below_bias 1023 (exponent_of g (edge 61 p z P / 2 ^ 52)) ≡ g
  edge-below_bias = ground arith

  edge-InBin : InBin 61 p z P (edge 61 p z P)
  edge-InBin =
      let pos : 1 ≤ 2 ^ shift_of 61 p z = one-le-pow (shift_of 61 p z) 2 (omega arith) in
      record { zeros = hz; precision = hP; low = le_refl _; high = omega arith }

  pub refile : fields64 p (exponent_of g (edge 61 p z P / 2 ^ 52)) (edge 61 p z P % 2 ^ 52) ≡ (z, P)
  refile =
      let same : masked_of64 (exponent_of g (edge 61 p z P / 2 ^ 52)) (edge 61 p z P % 2 ^ 52)
          ≡ edge 61 p z P =
        omega (arith, edge-adjusted) in
      rw same (
        zero_precision-InBin 61 p _ (edge 61 p z P) (omega arith) (omega arith)
          (first_one64-IsFirst (edge 61 p z P)) edge-InBin)
