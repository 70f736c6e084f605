-- ===== src/SetBits.antt =====
-- airtree-core/include/airtree/core/serdes/BooleanArray.hpp: the loop over the set bits of a mask, lowest
-- first, as the list of the bins it visits. `std::countr_zero` and `std::popcount` are written out. A word
-- has at most 64 ones, so that 64 rounds of the inner loop are enough.
pub mod Ones
pub mod Member
pub mod Order
mod Tests
use air_tree.Common.{
  ℕ, zero, suc, ◌+◌, ◌-◌, ◌*◌, ◌/◌, ◌%◌, bit_and, List, [], ◌∷◌, ◌++◌, ◌==◌, if◌then◌else◌,
}
use air_tree.Mask.{mask_words}

-- `std::countr_zero` of a word that is not 0, with `n` bits left to look at.
unfoldable pub countr_zero_from : ℕ → ℕ → ℕ
countr_zero_from zero m = 0
countr_zero_from (suc n) m =
    let rest = countr_zero_from n (m / 2) in if m % 2 == 1 then 0 else suc rest

unfoldable pub countr_zero : ℕ → ℕ
countr_zero m = countr_zero_from 64 m

unfoldable pub popcount_from : ℕ → ℕ → ℕ
popcount_from zero m = 0
popcount_from (suc n) m = m % 2 + popcount_from n (m / 2)

abbrev pub popcount : ℕ → ℕ
popcount m = popcount_from 64 m

-- `for (m = words[w]; m != 0; m &= m - 1)`, with at most `fuel` rounds.
unfoldable pub bits_loop : ℕ → ℕ → ℕ → List ℕ
bits_loop zero base m = []
bits_loop (suc fuel) base m =
    let rest = bits_loop fuel base (bit_and m (m - 1)) in
    if m == 0 then [] else (base + countr_zero m) ∷ rest

-- The first `n` words, the next of them at index `w`.
unfoldable pub words_loop : ℕ → ℕ → List ℕ → List ℕ
words_loop zero w words = []
words_loop (suc n) w [] = []
words_loop (suc n) w (m ∷ words) = bits_loop 64 (w * 64) m ++ words_loop n (suc w) words

-- The bins that `forEachSetBit` visits.
unfoldable pub set_bits : List ℕ → ℕ → List ℕ
set_bits words bins = words_loop (mask_words bins) 0 words

unfoldable pub popcount_words : ℕ → List ℕ → ℕ
popcount_words zero words = 0
popcount_words (suc n) [] = 0
popcount_words (suc n) (m ∷ words) = popcount m + popcount_words n words
