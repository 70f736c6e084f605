-- ===== src/Chunks/Eight.antt =====
-- The 8-bit codes: 3 magnitude bits and 5 precision bits for each dimension.
pub mod Laws
use air_tree.Common.{
  ℕ, ◌+◌, ◌*◌, ◌/◌, ◌%◌, ◌^◌, ◌≤◌, ◌<◌, bit_and, bit_or, ◌≡◌, ◌∙◌, arith, ltb, if◌then◌else◌, [],
  ◌∷◌, shl, shr, or_fields, or_fields-sum, masks,
}
use air_tree.Chunks.{ChunkPair, ChunkTriple, ChunkQuad, exceeds2, exceeds3, exceeds4}

-- combine_chunks_8b is overloaded; the number of dimensions tells the versions apart.
unfoldable pub combine_chunks_8b_2 : ℕ → ℕ → ℕ
combine_chunks_8b_2 x y =
    if exceeds2 0xFF x y
    then 0
    else or_fields 32 0 (
        (bit_and (shr x 5) 0x7, 13)
        ∷ (bit_and (shr y 5) 0x7, 10)
        ∷ (bit_and x 0x1F, 5)
        ∷ (bit_and y 0x1F, 0)
        ∷ [])

pub combine_chunks_8b_3 : ℕ → ℕ → ℕ → ℕ
combine_chunks_8b_3 x y z =
    if exceeds3 0xFF x y z
    then 0
    else or_fields 32 0 (
        (bit_and (shr x 5) 0x7, 21)
        ∷ (bit_and (shr y 5) 0x7, 18)
        ∷ (bit_and (shr z 5) 0x7, 15)
        ∷ (bit_and x 0x1F, 10)
        ∷ (bit_and y 0x1F, 5)
        ∷ (bit_and z 0x1F, 0)
        ∷ [])

pub combine_chunks_8b_4 : ℕ → ℕ → ℕ → ℕ → ℕ
combine_chunks_8b_4 w x y z =
    if exceeds4 0xFF w x y z
    then 0
    else or_fields 32 0 (
        (bit_and (shr w 5) 0x7, 29)
        ∷ (bit_and (shr x 5) 0x7, 26)
        ∷ (bit_and (shr y 5) 0x7, 23)
        ∷ (bit_and (shr z 5) 0x7, 20)
        ∷ (bit_and w 0x1F, 15)
        ∷ (bit_and x 0x1F, 10)
        ∷ (bit_and y 0x1F, 5)
        ∷ (bit_and z 0x1F, 0)
        ∷ [])

-- The checks that the pieces fit 8 bits come last here, as in the code.
pub reverse_combine_chunks_8b : ℕ → ChunkPair
reverse_combine_chunks_8b result =
    let x = bit_or (shl 32 (bit_and (shr result 13) 0x7) 5) (bit_and (shr result 5) 0x1F) in
    let y = bit_or (shl 32 (bit_and (shr result 10) 0x7) 5) (bit_and result 0x1F) in
    if exceeds2 0xFF x y then record { x = 0; y = 0 } else record { x = x; y = y }

pub reverse_combine_chunks_8b_3 : ℕ → ChunkTriple
reverse_combine_chunks_8b_3 result =
    let x = bit_or (shl 32 (bit_and (shr result 21) 0x7) 5) (bit_and (shr result 10) 0x1F) in
    let y = bit_or (shl 32 (bit_and (shr result 18) 0x7) 5) (bit_and (shr result 5) 0x1F) in
    let z = bit_or (shl 32 (bit_and (shr result 15) 0x7) 5) (bit_and result 0x1F) in
    if exceeds3 0xFF x y z then record { x = 0; y = 0; z = 0 } else record { x = x; y = y; z = z }

pub reverse_combine_chunks_8b_4 : ℕ → ChunkQuad
reverse_combine_chunks_8b_4 result =
    let w = bit_or (shl 32 (bit_and (shr result 29) 0x7) 5) (bit_and (shr result 15) 0x1F) in
    let x = bit_or (shl 32 (bit_and (shr result 26) 0x7) 5) (bit_and (shr result 10) 0x1F) in
    let y = bit_or (shl 32 (bit_and (shr result 23) 0x7) 5) (bit_and (shr result 5) 0x1F) in
    let z = bit_or (shl 32 (bit_and (shr result 20) 0x7) 5) (bit_and result 0x1F) in
    if exceeds4 0xFF w x y z
    then record { x = 0; y = 0; z = 0; w = 0 }
    else record { x = x; y = y; z = z; w = w }
