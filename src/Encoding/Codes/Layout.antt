-- ===== src/Encoding/Codes/Layout.antt =====
-- Each code is the fields S, E, M and P side by side, whatever the levels of its trie.
use air_tree.Common.{
  ℕ, ◌+◌, ◌-◌, ◌*◌, ◌/◌, ◌%◌, ◌^◌, ◌≤◌, ◌<◌, bit_and, bit_or, ◌≡◌, ◌∙◌, arith, [], ◌∷◌, shl, shr,
  or_fields, or_fields-sum, bit_or_pair, bit_and_low1, masks,
}
use air_tree.Encoding.{first_one64, first_one32, zero_precision}
use air_tree.Encoding.Exponent.{adjusted, below_bias, masked64_lem, masked32_lem}
use air_tree.Encoding.Bins.{InBin, InBin-zero_precision, first_one64-IsFirst, first_one32-IsFirst}
use air_tree.Encoding.Codes.{
  create_internal_13bit, create_internal_13bit_32, create_internal_16bit, create_internal_16bit_32,
  create_internal_20bit, create_internal_20bit_32,
}

-- Two fields of a row in front of `low`, and the first four.
index8_sum :
    (s g z q : ℕ)
    → s < 2
    → g < 2
    → z < 16
    → q < 4
    → or_fields 32 0 ((s, 7) ∷ (g, 6) ∷ (z, 2) ∷ (q, 0) ∷ []) ≡ s * 128 + g * 64 + z * 4 + q
index8_sum s g z q hs hg hz hq = or_fields-sum 32 8 _ (omega arith) (omega arith) ∙ omega arith

module _ (s g z P : ℕ) (hs : s < 2) (hg : g < 2) (hz : z ≤ 15) where
  code13 :
      P < 2 ^ 7
      → bit_or
          (shl 32 (or_fields 32 0 ((s, 7) ∷ (g, 6) ∷ (z, 2) ∷ (bit_and (shr P 5) 0x3, 0) ∷ [])) 5)
          (bit_and P 0x1F)
        ≡ s * 2 ^ 12 + g * 2 ^ 11 + z * 2 ^ 7 + P
  code13 hP = simp masks (
      rw (index8_sum s g z (P / 2 ^ 5 % 2 ^ 2) hs hg (omega arith) (omega arith))
        (bit_or_pair 32 5 _ (P % 2 ^ 5) (omega arith) (omega arith) ∙ omega arith))

  code16 :
      P < 2 ^ 10
      → bit_or
          (shl 32 (or_fields 32 0 ((s, 7) ∷ (g, 6) ∷ (z, 2) ∷ (bit_and (shr P 8) 0x3, 0) ∷ [])) 8)
          (bit_and P 0xFF)
        ≡ s * 2 ^ 15 + g * 2 ^ 14 + z * 2 ^ 10 + P
  code16 hP = simp masks (
      rw (index8_sum s g z (P / 2 ^ 8 % 2 ^ 2) hs hg (omega arith) (omega arith))
        (bit_or_pair 32 8 _ (P % 2 ^ 8) (omega arith) (omega arith) ∙ omega arith))

  code20 :
      P < 2 ^ 14
      → or_fields 32 0 (
          (or_fields 32 0 ((s, 7) ∷ (g, 6) ∷ (z, 2) ∷ (bit_and (shr P 12) 0x3, 0) ∷ []), 12)
          ∷ (bit_and (shr P 6) 0x3F, 6)
          ∷ (bit_and P 0x3F, 0)
          ∷ [])
        ≡ s * 2 ^ 19 + g * 2 ^ 18 + z * 2 ^ 14 + P
  code20 hP = simp masks (
      rw (index8_sum s g z (P / 2 ^ 12 % 2 ^ 2) hs hg (omega arith) (omega arith))
        (or_fields-sum 32 20 _ (omega arith) (omega arith) ∙ omega arith))

-- The fields of the code of a `double` with `p` precision bits, and the code that they make up.
abbrev pub masked_of64 : ℕ → ℕ → ℕ
masked_of64 e f = adjusted 1023 e * 2 ^ 52 + f

abbrev pub fields64 : ℕ → ℕ → ℕ → ℕ × ℕ
fields64 p e f = zero_precision 61 p (61 - 14 - p) (first_one64 (masked_of64 e f)) (masked_of64 e f)

abbrev pub layout : ℕ → ℕ → ℕ → ℕ × ℕ → ℕ
layout p s g zp = s * 2 ^ (p + 5) + g * 2 ^ (p + 4) + zp.0 * 2 ^ p + zp.1

module _ (e f : ℕ) (he : e < 2047) (hf : f < 2 ^ 52) where
  pub fields64-InBin :
      (p : ℕ) → p ≤ 47 → InBin 61 p (fields64 p e f).0 (fields64 p e f).1 (masked_of64 e f)
  fields64-InBin p room =
      InBin-zero_precision 61 p _ (masked_of64 e f) (omega arith) (omega arith)
        (first_one64-IsFirst _) (ground arith)

  module _ (s : ℕ) (hs : s < 2) where
    sign64 : bit_and (shr (s * 2 ^ 63 + e * 2 ^ 52 + f) 63) 0x1 ≡ s
    sign64 = bit_and_low1 (shr (s * 2 ^ 63 + e * 2 ^ 52 + f) 63) ∙ omega arith

    pub create_internal_13bit_lem :
        create_internal_13bit (s * 2 ^ 63 + e * 2 ^ 52 + f)
        ≡ layout 7 s (below_bias 1023 e) (fields64 7 e f)
    unfolding create_internal_13bit
    create_internal_13bit_lem =
        let bin = fields64-InBin 7 (omega arith) in
        rw (sign64, masked64_lem s e f hs (omega arith) hf)
          (code13 s (below_bias 1023 e) _ _ hs (ground arith) bin.zeros bin.precision)

    pub create_internal_16bit_lem :
        create_internal_16bit (s * 2 ^ 63 + e * 2 ^ 52 + f)
        ≡ layout 10 s (below_bias 1023 e) (fields64 10 e f)
    unfolding create_internal_16bit
    create_internal_16bit_lem =
        let bin = fields64-InBin 10 (omega arith) in
        rw (sign64, masked64_lem s e f hs (omega arith) hf)
          (code16 s (below_bias 1023 e) _ _ hs (ground arith) bin.zeros bin.precision)

    pub create_internal_20bit_lem :
        create_internal_20bit (s * 2 ^ 63 + e * 2 ^ 52 + f)
        ≡ layout 14 s (below_bias 1023 e) (fields64 14 e f)
    unfolding create_internal_20bit
    create_internal_20bit_lem =
        let bin = fields64-InBin 14 (omega arith) in
        rw (sign64, masked64_lem s e f hs (omega arith) hf)
          (code20 s (below_bias 1023 e) _ _ hs (ground arith) bin.zeros bin.precision)

-- `code` has the sign `s`, the flag of an exponent below the bias, and the zeros and precision bits
-- of the bin of the masked number of `e` and `f`.
pub record IsCode (bias mant_bits top p s e f code : ℕ) : Type 0 where
  pub zeros : ℕ
  pub precision : ℕ
  pub fields : code ≡ layout p s (below_bias bias e) (zeros, precision)
  pub bin : InBin top p zeros precision (adjusted bias e * 2 ^ mant_bits + f)

-- The 13, 16 and 20-bit codes of a finite `double` are its sign, the side of 1 that it lies on, and
-- the bin of its masked number, with 7, 10 and 14 precision bits.
pub create_internal-IsCode :
    (s e f : ℕ)
    → s < 2
    → e < 2047
    → f < 2 ^ 52
    → let fp = s * 2 ^ 63 + e * 2 ^ 52 + f in
      IsCode 1023 52 61 7 s e f (create_internal_13bit fp)
      × IsCode 1023 52 61 10 s e f (create_internal_16bit fp)
      × IsCode 1023 52 61 14 s e f (create_internal_20bit fp)
create_internal-IsCode s e f hs he hf = (
  record {
    zeros = _;
    precision = _;
    fields = create_internal_13bit_lem e f he hf s hs;
    bin = fields64-InBin e f he hf 7 (omega arith);
  },
  record {
    zeros = _;
    precision = _;
    fields = create_internal_16bit_lem e f he hf s hs;
    bin = fields64-InBin e f he hf 10 (omega arith);
  },
  record {
    zeros = _;
    precision = _;
    fields = create_internal_20bit_lem e f he hf s hs;
    bin = fields64-InBin e f he hf 14 (omega arith);
  },
)

-- The same of a `float`.
abbrev pub masked_of32 : ℕ → ℕ → ℕ
masked_of32 e f = adjusted 127 e * 2 ^ 23 + f

abbrev pub fields32 : ℕ → ℕ → ℕ → ℕ × ℕ
fields32 p e f = zero_precision 29 p (29 - 14 - p) (first_one32 (masked_of32 e f)) (masked_of32 e f)

module _ (e f : ℕ) (he : e < 255) (hf : f < 2 ^ 23) where
  pub fields32-InBin :
      (p : ℕ) → p ≤ 15 → InBin 29 p (fields32 p e f).0 (fields32 p e f).1 (masked_of32 e f)
  fields32-InBin p room =
      InBin-zero_precision 29 p _ (masked_of32 e f) (omega arith) (omega arith)
        (first_one32-IsFirst _) (ground arith)

  module _ (s : ℕ) (hs : s < 2) where
    sign32 : bit_and (shr (s * 2 ^ 31 + e * 2 ^ 23 + f) 31) 0x1 ≡ s
    sign32 = bit_and_low1 (shr (s * 2 ^ 31 + e * 2 ^ 23 + f) 31) ∙ omega arith

    pub create_internal_13bit_32_lem :
        create_internal_13bit_32 (s * 2 ^ 31 + e * 2 ^ 23 + f)
        ≡ layout 7 s (below_bias 127 e) (fields32 7 e f)
    unfolding create_internal_13bit_32
    create_internal_13bit_32_lem =
        let bin = fields32-InBin 7 (omega arith) in
        rw (sign32, masked32_lem s e f hs (omega arith) hf)
          (code13 s (below_bias 127 e) _ _ hs (ground arith) bin.zeros bin.precision)

    pub create_internal_16bit_32_lem :
        create_internal_16bit_32 (s * 2 ^ 31 + e * 2 ^ 23 + f)
        ≡ layout 10 s (below_bias 127 e) (fields32 10 e f)
    unfolding create_internal_16bit_32
    create_internal_16bit_32_lem =
        let bin = fields32-InBin 10 (omega arith) in
        rw (sign32, masked32_lem s e f hs (omega arith) hf)
          (code16 s (below_bias 127 e) _ _ hs (ground arith) bin.zeros bin.precision)

    pub create_internal_20bit_32_lem :
        create_internal_20bit_32 (s * 2 ^ 31 + e * 2 ^ 23 + f)
        ≡ layout 14 s (below_bias 127 e) (fields32 14 e f)
    unfolding create_internal_20bit_32
    create_internal_20bit_32_lem =
        let bin = fields32-InBin 14 (omega arith) in
        rw (sign32, masked32_lem s e f hs (omega arith) hf)
          (code20 s (below_bias 127 e) _ _ hs (ground arith) bin.zeros bin.precision)

-- The same of a finite `float`: its 13, 16 and 20-bit codes are its sign, the side of 1 that it lies
-- on, and the bin of its masked number.
pub create_internal-IsCode_32 :
    (s e f : ℕ)
    → s < 2
    → e < 255
    → f < 2 ^ 23
    → let fp = s * 2 ^ 31 + e * 2 ^ 23 + f in
      IsCode 127 23 29 7 s e f (create_internal_13bit_32 fp)
      × IsCode 127 23 29 10 s e f (create_internal_16bit_32 fp)
      × IsCode 127 23 29 14 s e f (create_internal_20bit_32 fp)
create_internal-IsCode_32 s e f hs he hf = (
  record {
    zeros = _;
    precision = _;
    fields = create_internal_13bit_32_lem e f he hf s hs;
    bin = fields32-InBin e f he hf 7 (omega arith);
  },
  record {
    zeros = _;
    precision = _;
    fields = create_internal_16bit_32_lem e f he hf s hs;
    bin = fields32-InBin e f he hf 10 (omega arith);
  },
  record {
    zeros = _;
    precision = _;
    fields = create_internal_20bit_32_lem e f he hf s hs;
    bin = fields32-InBin e f he hf 14 (omega arith);
  },
)
