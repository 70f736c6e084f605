-- ===== src/Chunks/Split.antt =====
-- combine_chunks_8b_temp and its inverse: the fourth bit of each code stands between the
-- magnitude bits and the last four bits.
use air_tree.Common.{
  ℕ, ◌+◌, ◌*◌, ◌/◌, ◌%◌, ◌^◌, ◌≤◌, bit_and, bit_or, bit_or_pair, bit_or_shifted, ◌<◌, ◌≡◌, ◌∙◌,
  arith, if◌then◌else◌, [], ◌∷◌, shl, shr, or_fields, or_fields-sum, masks,
}
use air_tree.Chunks.{ChunkPair, exceeds2, exceeds2-false}

pub combine_chunks_8b_temp : ℕ → ℕ → ℕ
combine_chunks_8b_temp x y =
    if exceeds2 0xFF x y
    then 0
    else or_fields 32 0 (
        (bit_and (shr x 5) 0x7, 13)
        ∷ (bit_and (shr y 5) 0x7, 10)
        ∷ (bit_and (shr x 4) 0x1, 9)
        ∷ (bit_and (shr y 4) 0x1, 8)
        ∷ (bit_and x 0xF, 4)
        ∷ (bit_and y 0xF, 0)
        ∷ [])

pub reverse_combine_chunks_8b_temp : ℕ → ChunkPair
reverse_combine_chunks_8b_temp result = record {
  x =
      bit_or
        (bit_or (shl 32 (bit_and (shr result 13) 0x7) 5) (shl 32 (bit_and (shr result 9) 0x1) 4))
        (bit_and (shr result 4) 0xF);
  y =
      bit_or
        (bit_or (shl 32 (bit_and (shr result 10) 0x7) 5) (shl 32 (bit_and (shr result 8) 0x1) 4))
        (bit_and result 0xF);
}

join :
    (a b c : ℕ)
    → bit_or (bit_or (shl 32 (bit_and a 0x7) 5) (shl 32 (bit_and b 0x1) 4)) (bit_and c 0xF)
      ≡ a % 8 * 32 + b % 2 * 16 + c % 16
join a b c =
    let upper : a % 8 * 2 ^ 5 + b % 2 * 2 ^ 4 % 2 ^ 32 ≡ (a % 8 * 2 + b % 2) * 2 ^ 4 =
      omega arith in
    simp masks (
      rw (bit_or_pair 32 5 (a % 8) (b % 2 * 2 ^ 4 % 2 ^ 32) (omega arith) (omega arith), upper)
        (bit_or_shifted 4 (a % 8 * 2 + b % 2) (c % 16) (omega arith) ∙ omega arith))

combine_sum :
    (x y : ℕ)
    → x ≤ 0xFF
    → y ≤ 0xFF
    → combine_chunks_8b_temp x y
      ≡ x / 32 * 2 ^ 13
        + y / 32 * 2 ^ 10
        + x / 16 % 2 * 2 ^ 9
        + y / 16 % 2 * 2 ^ 8
        + x % 16 * 2 ^ 4
        + y % 16
unfolding combine_chunks_8b_temp
combine_sum x y hx hy =
    rw (exceeds2-false 0xFF hx hy)
      (simp masks (or_fields-sum 32 16 _ (omega arith) (omega arith) ∙ omega arith))

reverse_parts :
    (r : ℕ)
    → reverse_combine_chunks_8b_temp r ≡ record {
      x = r / 2 ^ 13 % 8 * 32 + r / 2 ^ 9 % 2 * 16 + r / 2 ^ 4 % 16;
      y = r / 2 ^ 10 % 8 * 32 + r / 2 ^ 8 % 2 * 16 + r % 16;
    }
unfolding reverse_combine_chunks_8b_temp
reverse_parts r = simp join

-- The variant with the split precision bits is inverse to its reverse on codes of 8 bits, and its
-- reverse is inverse to it on indices of 16 bits.
pub combine-reverse_8b_temp :
    (x y r : ℕ)
    → x ≤ 0xFF
    → y ≤ 0xFF
    → r < 2 ^ 16
    → (reverse_combine_chunks_8b_temp (combine_chunks_8b_temp x y) ≡ record { x = x; y = y })
      × (let p = reverse_combine_chunks_8b_temp r in combine_chunks_8b_temp p.x p.y ≡ r)
combine-reverse_8b_temp x y r hx hy hr = (
  reverse_parts _ ∙ ground (arith, combine_sum x y hx hy),
  rw (reverse_parts r) (combine_sum _ _ (omega arith) (omega arith) ∙ omega arith),
)
