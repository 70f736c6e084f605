-- ===== src/Reconstruct/RoundTrip.antt =====
-- Reconstructing the code of a `double` and filing the result again gives the same code.
use air_tree.Common.{ℕ, ◌+◌, ◌*◌, ◌/◌, ◌%◌, ◌^◌, ◌≤◌, ◌<◌, ◌≡◌, refl, arith, if◌then◌else◌, ◌==◌}
use air_tree.Encoding.Exponent.{adjusted, below_bias}
use air_tree.Encoding.Bins.{InBin, shift_of}
use air_tree.Encoding.Codes.{create_internal_13bit, create_internal_16bit, create_internal_20bit}
use air_tree.Encoding.Codes.Layout.{
  masked_of64, fields64, fields64-InBin, create_internal_13bit_lem, create_internal_16bit_lem,
  create_internal_20bit_lem,
}
use air_tree.Reconstruct.{double_layout, re_construct}
use air_tree.Reconstruct.Edge.{edge}
use air_tree.Reconstruct.Rebuild.{
  exponent_of, re_construct_13, re_construct_16, re_construct_20, edge_exponent-lt, edge-adjusted,
  edge-below_bias, refile,
}

module _ (s e f : ℕ) (hs : s < 2) (he : e < 2047) (hf : f < 2 ^ 52) where
  module _ (p : ℕ) (hp : p ≤ 14) where
    bin : InBin 61 p (fields64 p e f).0 (fields64 p e f).1 (masked_of64 e f)
    bin = fields64-InBin e f he hf p (omega arith)

    reachable :
        edge 61 p (fields64 p e f).0 (fields64 p e f).1 / 2 ^ 52
        ≤ (if below_bias 1023 e == 1 then 1022 else 1023)
    reachable =
        let below : edge 61 p (fields64 p e f).0 (fields64 p e f).1 / 2 ^ 52 ≤ adjusted 1023 e =
          omega (arith, bin.low) in
        ground arith

  below_bias-lt : below_bias 1023 e < 2
  below_bias-lt = ground arith

  -- The fields of the reconstructed number.
  abbrev pub lower : ℕ → ℕ
  lower p = edge 61 p (fields64 p e f).0 (fields64 p e f).1

  abbrev pub lower_exponent : ℕ → ℕ
  lower_exponent p = exponent_of (below_bias 1023 e) (lower p / 2 ^ 52)

  module _ (p : ℕ) (hp : p ≤ 14) where
    lower_exponent-lt : lower_exponent p < 2047
    lower_exponent-lt =
        edge_exponent-lt p _ _ _ hp below_bias-lt (bin p hp).zeros (bin p hp).precision
          (reachable p hp)

    lower_fraction-lt : lower p % 2 ^ 52 < 2 ^ 52
    lower_fraction-lt = omega arith

    lower_below_bias : below_bias 1023 (lower_exponent p) ≡ below_bias 1023 e
    lower_below_bias =
        edge-below_bias p _ _ _ hp below_bias-lt (bin p hp).zeros (bin p hp).precision
          (reachable p hp)

    lower_fields : fields64 p (lower_exponent p) (lower p % 2 ^ 52) ≡ fields64 p e f
    lower_fields =
        refile p _ _ _ hp below_bias-lt (bin p hp).zeros (bin p hp).precision (reachable p hp)

    lower_masked : masked_of64 (lower_exponent p) (lower p % 2 ^ 52) ≡ lower p
    lower_masked = omega (
      arith,
      edge-adjusted p _ _ _ hp below_bias-lt (bin p hp).zeros (bin p hp).precision (reachable p hp),
    )

  reconstruct_13 :
      re_construct double_layout (create_internal_13bit (s * 2 ^ 63 + e * 2 ^ 52 + f)) 13
      ≡ s * 2 ^ 63 + lower_exponent 7 * 2 ^ 52 + lower 7 % 2 ^ 52
  reconstruct_13 =
      let b = bin 7 (omega arith) in
      rw (create_internal_13bit_lem e f he hf s hs) (
        re_construct_13 7 s (below_bias 1023 e) (fields64 7 e f).0 (fields64 7 e f).1 (omega arith)
          hs b.zeros b.precision (reachable 7 (omega arith)) refl below_bias-lt)

  refile_13 :
      create_internal_13bit (s * 2 ^ 63 + lower_exponent 7 * 2 ^ 52 + lower 7 % 2 ^ 52)
      ≡ create_internal_13bit (s * 2 ^ 63 + e * 2 ^ 52 + f)
  refile_13 =
      rw
        (
          create_internal_13bit_lem e f he hf s hs,
          create_internal_13bit_lem (lower_exponent 7) (lower 7 % 2 ^ 52)
              (lower_exponent-lt 7 (omega arith)) (lower_fraction-lt 7 (omega arith)) s hs,
          lower_below_bias 7 (omega arith),
          lower_fields 7 (omega arith),
        )
        refl

  reconstruct_16 :
      re_construct double_layout (create_internal_16bit (s * 2 ^ 63 + e * 2 ^ 52 + f)) 16
      ≡ s * 2 ^ 63 + lower_exponent 10 * 2 ^ 52 + lower 10 % 2 ^ 52
  reconstruct_16 =
      let b = bin 10 (omega arith) in
      rw (create_internal_16bit_lem e f he hf s hs) (
        re_construct_16 10 s (below_bias 1023 e) (fields64 10 e f).0 (fields64 10 e f).1
          (omega arith) hs b.zeros b.precision (reachable 10 (omega arith)) refl below_bias-lt)

  refile_16 :
      create_internal_16bit (s * 2 ^ 63 + lower_exponent 10 * 2 ^ 52 + lower 10 % 2 ^ 52)
      ≡ create_internal_16bit (s * 2 ^ 63 + e * 2 ^ 52 + f)
  refile_16 =
      rw
        (
          create_internal_16bit_lem e f he hf s hs,
          create_internal_16bit_lem (lower_exponent 10) (lower 10 % 2 ^ 52)
              (lower_exponent-lt 10 (omega arith)) (lower_fraction-lt 10 (omega arith)) s hs,
          lower_below_bias 10 (omega arith),
          lower_fields 10 (omega arith),
        )
        refl

  reconstruct_20 :
      re_construct double_layout (create_internal_20bit (s * 2 ^ 63 + e * 2 ^ 52 + f)) 20
      ≡ s * 2 ^ 63 + lower_exponent 14 * 2 ^ 52 + lower 14 % 2 ^ 52
  reconstruct_20 =
      let b = bin 14 (omega arith) in
      rw (create_internal_20bit_lem e f he hf s hs) (
        re_construct_20 14 s (below_bias 1023 e) (fields64 14 e f).0 (fields64 14 e f).1
          (omega arith) hs b.zeros b.precision (reachable 14 (omega arith)) refl below_bias-lt)

  refile_20 :
      create_internal_20bit (s * 2 ^ 63 + lower_exponent 14 * 2 ^ 52 + lower 14 % 2 ^ 52)
      ≡ create_internal_20bit (s * 2 ^ 63 + e * 2 ^ 52 + f)
  refile_20 =
      rw
        (
          create_internal_20bit_lem e f he hf s hs,
          create_internal_20bit_lem (lower_exponent 14) (lower 14 % 2 ^ 52)
              (lower_exponent-lt 14 (omega arith)) (lower_fraction-lt 14 (omega arith)) s hs,
          lower_below_bias 14 (omega arith),
          lower_fields 14 (omega arith),
        )
        refl

  -- For a finite `double`, reconstructing its 13, 16 or 20-bit code and filing the result again gives
  -- the same code.
  pub create_internal-re_construct :
      let fp = s * 2 ^ 63 + e * 2 ^ 52 + f in
      (create_internal_13bit (re_construct double_layout (create_internal_13bit fp) 13)
        ≡ create_internal_13bit fp)
      × (create_internal_16bit (re_construct double_layout (create_internal_16bit fp) 16)
          ≡ create_internal_16bit fp)
      × (create_internal_20bit (re_construct double_layout (create_internal_20bit fp) 20)
          ≡ create_internal_20bit fp)
  create_internal-re_construct =
      (rw reconstruct_13 refile_13, rw reconstruct_16 refile_16, rw reconstruct_20 refile_20)

-- `r` is the number of the same sign and on the same side of 1 whose masked number is the lower edge
-- of an interval of `2 ^ k` masked numbers that holds the one of `e` and `f`.
pub record IsLower (s e f k r : ℕ) : Type 0 where
  pub exponent : ℕ
  pub fraction : ℕ
  pub is_number : r ≡ s * 2 ^ 63 + exponent * 2 ^ 52 + fraction
  pub finite : exponent < 2047
  pub narrow : fraction < 2 ^ 52
  pub same_side : below_bias 1023 exponent ≡ below_bias 1023 e
  pub low : masked_of64 exponent fraction ≤ masked_of64 e f
  pub high : masked_of64 e f < masked_of64 exponent fraction + 2 ^ k

module _ (s e f : ℕ) (hs : s < 2) (he : e < 2047) (hf : f < 2 ^ 52) where
  lower-IsLower :
      (p r : ℕ)
      → p ≤ 14
      → r ≡ s * 2 ^ 63 + lower_exponent s e f hs he hf p * 2 ^ 52 + lower s e f hs he hf p % 2 ^ 52
      → IsLower s e f (shift_of 61 p (fields64 p e f).0) r
  lower-IsLower p r hp is_number =
      let b = bin s e f hs he hf p hp in
      record {
        exponent = lower_exponent s e f hs he hf p;
        fraction = lower s e f hs he hf p % 2 ^ 52;
        is_number = is_number;
        finite = lower_exponent-lt s e f hs he hf p hp;
        narrow = omega arith;
        same_side = lower_below_bias s e f hs he hf p hp;
        low = omega (arith, b.low, lower_masked s e f hs he hf p hp);
        high = omega (arith, b.high, lower_masked s e f hs he hf p hp);
      }

  -- Reconstructing the 13, 16 or 20-bit code of a finite `double` gives a number of the same sign, on
  -- the same side of 1, at most `2 ^ k` masked numbers below it, where `k` is the number of bits that
  -- the code leaves out.
  pub re_construct-IsLower :
      let fp = s * 2 ^ 63 + e * 2 ^ 52 + f in
      IsLower s e f
        (shift_of 61 7 (fields64 7 e f).0)
        (re_construct double_layout (create_internal_13bit fp) 13)
      × IsLower s e f
          (shift_of 61 10 (fields64 10 e f).0)
          (re_construct double_layout (create_internal_16bit fp) 16)
      × IsLower s e f
          (shift_of 61 14 (fields64 14 e f).0)
          (re_construct double_layout (create_internal_20bit fp) 20)
  re_construct-IsLower = (
    lower-IsLower 7 _ (omega arith) (reconstruct_13 s e f hs he hf),
    lower-IsLower 10 _ (omega arith) (reconstruct_16 s e f hs he hf),
    lower-IsLower 14 _ (omega arith) (reconstruct_20 s e f hs he hf),
  )
