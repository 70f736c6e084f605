-- ===== src/Chunks/Ten/Laws.antt =====
-- Combining and taking apart 10-bit codes are inverse to one another; what is out of range gives 0.
use air_tree.Common.{
  ℕ, ◌+◌, ◌*◌, ◌/◌, ◌%◌, ◌^◌, ◌≤◌, ◌<◌, bit_and, bit_or, ◌≡◌, ◌∙◌, arith, shl, or_fields-sum,
  bit_or_pair, masks,
}
use air_tree.Chunks.{exceeds2-false, exceeds3-false, exceeds4-false}
use air_tree.Chunks.Ten.{combine_chunks_10b_2, combine_chunks_10b_3, combine_chunks_10b_4}
use air_tree.Chunks.Ten.{
  reverse_combine_chunks_10b, reverse_combine_chunks_10b_3, reverse_combine_chunks_10b_4,
}

join : (a b : ℕ) → bit_or (shl 32 (bit_and a 0xF) 6) (bit_and b 0x3F) ≡ a % 16 * 64 + b % 64
join a b = simp masks (bit_or_pair 32 6 (a % 16) (b % 64) (omega arith) (omega arith))

module _ (x y : ℕ) (hx : x ≤ 0x3FF) (hy : y ≤ 0x3FF) where
  combine_2_sum :
      combine_chunks_10b_2 x y ≡ x / 64 * 2 ^ 16 + y / 64 * 2 ^ 12 + x % 64 * 2 ^ 6 + y % 64
  unfolding combine_chunks_10b_2
  combine_2_sum =
      rw (exceeds2-false 0x3FF hx hy)
        (simp masks (or_fields-sum 32 20 _ (omega arith) (omega arith) ∙ omega arith))

  module _ (z : ℕ) (hz : z ≤ 0x3FF) where
    combine_3_sum :
        combine_chunks_10b_3 x y z
        ≡ x / 64 * 2 ^ 26
          + y / 64 * 2 ^ 22
          + z / 64 * 2 ^ 18
          + x % 64 * 2 ^ 12
          + y % 64 * 2 ^ 6
          + z % 64
    unfolding combine_chunks_10b_3
    combine_3_sum =
        rw (exceeds3-false 0x3FF hx hy hz)
          (simp masks (or_fields-sum 64 30 _ (omega arith) (omega arith) ∙ omega arith))

    module _ (w : ℕ) (hw : w ≤ 0x3FF) where
      combine_4_sum :
          combine_chunks_10b_4 x y z w
          ≡ x / 64 * 2 ^ 36
            + y / 64 * 2 ^ 32
            + z / 64 * 2 ^ 28
            + w / 64 * 2 ^ 24
            + x % 64 * 2 ^ 18
            + y % 64 * 2 ^ 12
            + z % 64 * 2 ^ 6
            + w % 64
      unfolding combine_chunks_10b_4
      combine_4_sum =
          rw (exceeds4-false 0x3FF hw hx hy hz)
            (simp masks (or_fields-sum 64 40 _ (omega arith) (omega arith) ∙ omega arith))

reverse_2_parts :
    (r : ℕ)
    → r < 2 ^ 20
    → reverse_combine_chunks_10b r
      ≡ record { x = r / 2 ^ 16 % 16 * 64 + r / 2 ^ 6 % 64; y = r / 2 ^ 12 % 16 * 64 + r % 64 }
unfolding reverse_combine_chunks_10b
reverse_2_parts r h = simp join (ground arith)

reverse_3_parts :
    (r : ℕ)
    → r < 2 ^ 30
    → reverse_combine_chunks_10b_3 r ≡ record {
      x = r / 2 ^ 26 % 16 * 64 + r / 2 ^ 12 % 64;
      y = r / 2 ^ 22 % 16 * 64 + r / 2 ^ 6 % 64;
      z = r / 2 ^ 18 % 16 * 64 + r % 64;
    }
unfolding reverse_combine_chunks_10b_3
reverse_3_parts r h = simp join (ground arith)

reverse_4_parts :
    (r : ℕ)
    → r < 2 ^ 40
    → reverse_combine_chunks_10b_4 r ≡ record {
      x = r / 2 ^ 36 % 16 * 64 + r / 2 ^ 18 % 64;
      y = r / 2 ^ 32 % 16 * 64 + r / 2 ^ 12 % 64;
      z = r / 2 ^ 28 % 16 * 64 + r / 2 ^ 6 % 64;
      w = r / 2 ^ 24 % 16 * 64 + r % 64;
    }
unfolding reverse_combine_chunks_10b_4
reverse_4_parts r h = simp join (ground arith)

-- Taking a combined 10-bit index apart gives back the codes, in two, three and four dimensions,
-- where every code fits 10 bits.
pub reverse-combine_10b :
    (x y z w : ℕ)
    → x ≤ 0x3FF
    → y ≤ 0x3FF
    → z ≤ 0x3FF
    → w ≤ 0x3FF
    → (reverse_combine_chunks_10b (combine_chunks_10b_2 x y) ≡ record { x = x; y = y })
      × (reverse_combine_chunks_10b_3 (combine_chunks_10b_3 x y z) ≡ record { x = x; y = y; z = z })
      × (reverse_combine_chunks_10b_4 (combine_chunks_10b_4 x y z w)
          ≡ record { x = x; y = y; z = z; w = w })
reverse-combine_10b x y z w hx hy hz hw = (
  reverse_2_parts _ (omega (arith, combine_2_sum x y hx hy))
      ∙ ground (arith, combine_2_sum x y hx hy),
  reverse_3_parts _ (omega (arith, combine_3_sum x y hx hy z hz))
      ∙ ground (arith, combine_3_sum x y hx hy z hz),
  reverse_4_parts _ (omega (arith, combine_4_sum x y hx hy z hz w hw))
      ∙ ground (arith, combine_4_sum x y hx hy z hz w hw),
)

-- Every 20-bit, 30-bit and 40-bit index is the combination of the codes it is taken apart into.
pub combine-reverse_10b :
    (r2 r3 r4 : ℕ)
    → r2 < 2 ^ 20
    → r3 < 2 ^ 30
    → r4 < 2 ^ 40
    → (let p = reverse_combine_chunks_10b r2 in combine_chunks_10b_2 p.x p.y ≡ r2)
      × (let t = reverse_combine_chunks_10b_3 r3 in combine_chunks_10b_3 t.x t.y t.z ≡ r3)
      × (let q = reverse_combine_chunks_10b_4 r4 in combine_chunks_10b_4 q.x q.y q.z q.w ≡ r4)
combine-reverse_10b r2 r3 r4 h2 h3 h4 = (
  rw (reverse_2_parts r2 h2) (combine_2_sum _ _ (omega arith) (omega arith) ∙ omega arith),
  rw (reverse_3_parts r3 h3)
      (combine_3_sum _ _ (omega arith) (omega arith) _ (omega arith) ∙ omega arith),
  rw (reverse_4_parts r4 h4)
      (combine_4_sum _ _ (omega arith) (omega arith) _ (omega arith) _ (omega arith) ∙ omega arith),
)
