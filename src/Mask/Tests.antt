-- ===== src/Mask/Tests.antt =====
-- The theorems on masks at concrete masks.
use air_tree.Common.{◌≡◌, refl, arith, some, [], ◌∷◌, ◌++◌, length}
use air_tree.Mask.{bytes_of_words, write_populated_mask, read_populated_mask}
use air_tree.Mask.RoundTrip.{read-write_populated_mask}

write_two :
    write_populated_mask (0x102 ∷ 3 ∷ []) 70 (9 ∷ [])
    ≡ 9 ∷ 2 ∷ 1 ∷ 0 ∷ 0 ∷ 0 ∷ 0 ∷ 0 ∷ 0 ∷ 3 ∷ 0 ∷ 0 ∷ 0 ∷ 0 ∷ 0 ∷ 0 ∷ 0 ∷ []
unfolding write_populated_mask bytes_of_words
write_two = refl

read-write_populated_mask_example :
    read_populated_mask (write_populated_mask (0x102 ∷ 3 ∷ []) 70 (9 ∷ []) ++ (5 ∷ [])) 1 70
    ≡ some (0x102 ∷ 3 ∷ [], length (write_populated_mask (0x102 ∷ 3 ∷ []) 70 (9 ∷ [])))
read-write_populated_mask_example =
    read-write_populated_mask (0x102 ∷ 3 ∷ []) 70 (9 ∷ []) (5 ∷ []) (omega arith) refl
