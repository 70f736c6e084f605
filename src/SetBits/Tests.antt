-- ===== src/SetBits/Tests.antt =====
-- The bins of a small mask.
use air_tree.Common.{◌≡◌, refl, arith, [], ◌∷◌}
use air_tree.Populated.{test}
use air_tree.SetBits.{
  set_bits, bits_loop, words_loop, countr_zero, countr_zero_from, popcount_words, popcount_from,
}
use air_tree.SetBits.Member.{mem, mem-set_bits}

three_bins : (set_bits (5 ∷ 2 ∷ []) 70 ≡ 0 ∷ 2 ∷ 65 ∷ []) × (popcount_words 2 (5 ∷ 2 ∷ []) ≡ 3)
unfolding set_bits words_loop bits_loop countr_zero countr_zero_from popcount_words popcount_from
three_bins = (refl, refl)

mem-set_bits_example : mem 65 (set_bits (5 ∷ 2 ∷ []) 70) ≡ test (5 ∷ 2 ∷ []) 65
mem-set_bits_example = mem-set_bits (5 ∷ 2 ∷ []) 70 65 (omega arith, (omega arith, tt)) refl
