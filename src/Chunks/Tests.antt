-- ===== src/Chunks/Tests.antt =====
-- The theorems on combined indices, and a run, at concrete codes.
use air_tree.Common.{◌≡◌, refl, arith, or_fields}
use air_tree.Chunks.Eight.{combine_chunks_8b_2, combine_chunks_8b_3, combine_chunks_8b_4}
use air_tree.Chunks.Eight.{
  reverse_combine_chunks_8b, reverse_combine_chunks_8b_3, reverse_combine_chunks_8b_4,
}
use air_tree.Chunks.Eight.Laws.{reverse-combine_8b}
use air_tree.Chunks.Ten.{combine_chunks_10b_2, combine_chunks_10b_3, combine_chunks_10b_4}
use air_tree.Chunks.Ten.{
  reverse_combine_chunks_10b, reverse_combine_chunks_10b_3, reverse_combine_chunks_10b_4,
}
use air_tree.Chunks.Ten.Laws.{reverse-combine_10b}

-- The magnitude bits of both codes stand above their precision bits; 256 is refused.
combine_two : (combine_chunks_8b_2 0xE1 0x22 ≡ 0xE422) × (combine_chunks_8b_2 256 1 ≡ 0)
unfolding combine_chunks_8b_2 or_fields
combine_two = (refl, refl)

reverse-combine_8b_example :
    (reverse_combine_chunks_8b (combine_chunks_8b_2 0xFF 0x21) ≡ record { x = 0xFF; y = 0x21 })
    × (reverse_combine_chunks_8b_3 (combine_chunks_8b_3 0xFF 0x21 0x80)
        ≡ record { x = 0xFF; y = 0x21; z = 0x80 })
    × (reverse_combine_chunks_8b_4 (combine_chunks_8b_4 7 0xFF 0x21 0x80)
        ≡ record { x = 0xFF; y = 0x21; z = 0x80; w = 7 })
reverse-combine_8b_example =
    reverse-combine_8b 0xFF 0x21 0x80 7 (omega arith) (omega arith) (omega arith) (omega arith)

reverse-combine_10b_example :
    (reverse_combine_chunks_10b (combine_chunks_10b_2 0x3FF 0x41) ≡ record { x = 0x3FF; y = 0x41 })
    × (reverse_combine_chunks_10b_3 (combine_chunks_10b_3 0x3FF 0x41 0x200)
        ≡ record { x = 0x3FF; y = 0x41; z = 0x200 })
    × (reverse_combine_chunks_10b_4 (combine_chunks_10b_4 0x3FF 0x41 0x200 7)
        ≡ record { x = 0x3FF; y = 0x41; z = 0x200; w = 7 })
reverse-combine_10b_example =
    reverse-combine_10b 0x3FF 0x41 0x200 7 (omega arith) (omega arith) (omega arith) (omega arith)
