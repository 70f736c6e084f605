-- ===== src/Chunks/Ten.antt =====
-- The 10-bit codes: 4 magnitude bits and 6 precision bits for each dimension.
pub mod Laws
use air_tree.Common.{
  ℕ, ◌+◌, ◌*◌, ◌/◌, ◌%◌, ◌^◌, ◌≤◌, ◌<◌, bit_and, bit_or, ◌≡◌, ◌∙◌, arith, ltb, if◌then◌else◌, [],
  ◌∷◌, shl, shr, or_fields, or_fields-sum, masks,
}
use air_tree.Chunks.{ChunkPair, ChunkTriple, ChunkQuad, exceeds2, exceeds3, exceeds4}

pub combine_chunks_10b_2 : ℕ → ℕ → ℕ
combine_chunks_10b_2 x y =
    if exceeds2 0x3FF x y
    then 0
    else or_fields 32 0 (
        (bit_and (shr x 6) 0xF, 16)
        ∷ (bit_and (shr y 6) 0xF, 12)
        ∷ (bit_and x 0x3F, 6)
        ∷ (bit_and y 0x3F, 0)
        ∷ [])

pub combine_chunks_10b_3 : ℕ → ℕ → ℕ → ℕ
combine_chunks_10b_3 x y z =
    if exceeds3 0x3FF x y z
    then 0
    else or_fields 64 0 (
        (bit_and (shr x 6) 0xF, 26)
        ∷ (bit_and (shr y 6) 0xF, 22)
        ∷ (bit_and (shr z 6) 0xF, 18)
        ∷ (bit_and x 0x3F, 12)
        ∷ (bit_and y 0x3F, 6)
        ∷ (bit_and z 0x3F, 0)
        ∷ [])

pub combine_chunks_10b_4 : ℕ → ℕ → ℕ → ℕ → ℕ
combine_chunks_10b_4 x y z w =
    if exceeds4 0x3FF w x y z
    then 0
    else or_fields 64 0 (
        (bit_and (shr x 6) 0xF, 36)
        ∷ (bit_and (shr y 6) 0xF, 32)
        ∷ (bit_and (shr z 6) 0xF, 28)
        ∷ (bit_and (shr w 6) 0xF, 24)
        ∷ (bit_and x 0x3F, 18)
        ∷ (bit_and y 0x3F, 12)
        ∷ (bit_and z 0x3F, 6)
        ∷ (bit_and w 0x3F, 0)
        ∷ [])

pub reverse_combine_chunks_10b : ℕ → ChunkPair
reverse_combine_chunks_10b result = if ltb 0xFFFFF result then record { x = 0; y = 0 } else record {
  x = bit_or (shl 32 (bit_and (shr result 16) 0xF) 6) (bit_and (shr result 6) 0x3F);
  y = bit_or (shl 32 (bit_and (shr result 12) 0xF) 6) (bit_and result 0x3F);
}

pub reverse_combine_chunks_10b_3 : ℕ → ChunkTriple
reverse_combine_chunks_10b_3 result =
    if ltb 0x3FFFFFFF result then record { x = 0; y = 0; z = 0 } else record {
      x = bit_or (shl 32 (bit_and (shr result 26) 0xF) 6) (bit_and (shr result 12) 0x3F);
      y = bit_or (shl 32 (bit_and (shr result 22) 0xF) 6) (bit_and (shr result 6) 0x3F);
      z = bit_or (shl 32 (bit_and (shr result 18) 0xF) 6) (bit_and result 0x3F);
    }

pub reverse_combine_chunks_10b_4 : ℕ → ChunkQuad
reverse_combine_chunks_10b_4 result =
    if ltb 0xFFFFFFFFFF result then record { x = 0; y = 0; z = 0; w = 0 } else record {
      x = bit_or (shl 32 (bit_and (shr result 36) 0xF) 6) (bit_and (shr result 18) 0x3F);
      y = bit_or (shl 32 (bit_and (shr result 32) 0xF) 6) (bit_and (shr result 12) 0x3F);
      z = bit_or (shl 32 (bit_and (shr result 28) 0xF) 6) (bit_and (shr result 6) 0x3F);
      w = bit_or (shl 32 (bit_and (shr result 24) 0xF) 6) (bit_and result 0x3F);
    }
