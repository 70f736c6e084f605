-- ===== src/Chunks/Eight/Laws.antt =====
-- Combining and taking apart 8-bit codes are inverse to one another.
use air_tree.Common.{
  ℕ, ◌+◌, ◌*◌, ◌/◌, ◌%◌, ◌^◌, ◌≤◌, ◌<◌, bit_and, bit_or, ◌≡◌, ◌∙◌, arith, shl, or_fields-sum,
  bit_or_pair, masks,
}
use air_tree.Chunks.{exceeds2-false, exceeds3-false, exceeds4-false}
use air_tree.Chunks.Eight.{combine_chunks_8b_2, combine_chunks_8b_3, combine_chunks_8b_4}
use air_tree.Chunks.Eight.{
  reverse_combine_chunks_8b, reverse_combine_chunks_8b_3, reverse_combine_chunks_8b_4,
}

join : (a b : ℕ) → bit_or (shl 32 (bit_and a 0x7) 5) (bit_and b 0x1F) ≡ a % 8 * 32 + b % 32
join a b = simp masks (bit_or_pair 32 5 (a % 8) (b % 32) (omega arith) (omega arith))

module _ (x y : ℕ) (hx : x ≤ 0xFF) (hy : y ≤ 0xFF) where
  combine_2_sum :
      combine_chunks_8b_2 x y ≡ x / 32 * 2 ^ 13 + y / 32 * 2 ^ 10 + x % 32 * 2 ^ 5 + y % 32
  unfolding combine_chunks_8b_2
  combine_2_sum =
      rw (exceeds2-false 0xFF hx hy)
        (simp masks (or_fields-sum 32 16 _ (omega arith) (omega arith) ∙ omega arith))

  module _ (z : ℕ) (hz : z ≤ 0xFF) where
    combine_3_sum :
        combine_chunks_8b_3 x y z
        ≡ x / 32 * 2 ^ 21
          + y / 32 * 2 ^ 18
          + z / 32 * 2 ^ 15
          + x % 32 * 2 ^ 10
          + y % 32 * 2 ^ 5
          + z % 32
    unfolding combine_chunks_8b_3
    combine_3_sum =
        rw (exceeds3-false 0xFF hx hy hz)
          (simp masks (or_fields-sum 32 24 _ (omega arith) (omega arith) ∙ omega arith))

    module _ (w : ℕ) (hw : w ≤ 0xFF) where
      combine_4_sum :
          combine_chunks_8b_4 w x y z
          ≡ w / 32 * 2 ^ 29
            + x / 32 * 2 ^ 26
            + y / 32 * 2 ^ 23
            + z / 32 * 2 ^ 20
            + w % 32 * 2 ^ 15
            + x % 32 * 2 ^ 10
            + y % 32 * 2 ^ 5
            + z % 32
      unfolding combine_chunks_8b_4
      combine_4_sum =
          rw (exceeds4-false 0xFF hw hx hy hz)
            (simp masks (or_fields-sum 32 32 _ (omega arith) (omega arith) ∙ omega arith))

module _ (r : ℕ) where
  reverse_2_parts :
      reverse_combine_chunks_8b r
      ≡ record { x = r / 2 ^ 13 % 8 * 32 + r / 2 ^ 5 % 32; y = r / 2 ^ 10 % 8 * 32 + r % 32 }
  unfolding reverse_combine_chunks_8b
  reverse_2_parts = simp join (ground arith)

  reverse_3_parts : reverse_combine_chunks_8b_3 r ≡ record {
    x = r / 2 ^ 21 % 8 * 32 + r / 2 ^ 10 % 32;
    y = r / 2 ^ 18 % 8 * 32 + r / 2 ^ 5 % 32;
    z = r / 2 ^ 15 % 8 * 32 + r % 32;
  }
  unfolding reverse_combine_chunks_8b_3
  reverse_3_parts = simp join (ground arith)

  reverse_4_parts : reverse_combine_chunks_8b_4 r ≡ record {
    x = r / 2 ^ 26 % 8 * 32 + r / 2 ^ 10 % 32;
    y = r / 2 ^ 23 % 8 * 32 + r / 2 ^ 5 % 32;
    z = r / 2 ^ 20 % 8 * 32 + r % 32;
    w = r / 2 ^ 29 % 8 * 32 + r / 2 ^ 15 % 32;
  }
  unfolding reverse_combine_chunks_8b_4
  reverse_4_parts = simp join (ground arith)

-- Taking a combined 8-bit index apart gives back the codes, in two, three and four dimensions,
-- where every code fits 8 bits.
pub reverse-combine_8b :
    (x y z w : ℕ)
    → x ≤ 0xFF
    → y ≤ 0xFF
    → z ≤ 0xFF
    → w ≤ 0xFF
    → (reverse_combine_chunks_8b (combine_chunks_8b_2 x y) ≡ record { x = x; y = y })
      × (reverse_combine_chunks_8b_3 (combine_chunks_8b_3 x y z) ≡ record { x = x; y = y; z = z })
      × (reverse_combine_chunks_8b_4 (combine_chunks_8b_4 w x y z)
          ≡ record { x = x; y = y; z = z; w = w })
reverse-combine_8b x y z w hx hy hz hw = (
  reverse_2_parts _ ∙ ground (arith, combine_2_sum x y hx hy),
  reverse_3_parts _ ∙ ground (arith, combine_3_sum x y hx hy z hz),
  reverse_4_parts _ ∙ ground (arith, combine_4_sum x y hx hy z hz w hw),
)

-- Every 16-bit, 24-bit and 32-bit index is the combination of the codes it is taken apart into.
pub combine-reverse_8b :
    (r2 r3 r4 : ℕ)
    → r2 < 2 ^ 16
    → r3 < 2 ^ 24
    → r4 < 2 ^ 32
    → (let p = reverse_combine_chunks_8b r2 in combine_chunks_8b_2 p.x p.y ≡ r2)
      × (let t = reverse_combine_chunks_8b_3 r3 in combine_chunks_8b_3 t.x t.y t.z ≡ r3)
      × (let q = reverse_combine_chunks_8b_4 r4 in combine_chunks_8b_4 q.w q.x q.y q.z ≡ r4)
combine-reverse_8b r2 r3 r4 h2 h3 h4 = (
  rw (reverse_2_parts r2) (combine_2_sum _ _ (omega arith) (omega arith) ∙ omega arith),
  rw (reverse_3_parts r3)
      (combine_3_sum _ _ (omega arith) (omega arith) _ (omega arith) ∙ omega arith),
  rw (reverse_4_parts r4)
      (combine_4_sum _ _ (omega arith) (omega arith) _ (omega arith) _ (omega arith) ∙ omega arith),
)
