-- ===== src/Populated.antt =====
-- airtree-core/include/airtree/core/common/Populated.hpp: the bitset of the populated bins of a node,
-- as its 64-bit words. An index outside the words is undefined there; here it changes nothing and
-- tests false, and every index of the callers lies inside.
pub mod Laws
mod Tests
use air_tree.Common.{
  ℕ, ◌+◌, ◌/◌, bit_and, bit_or, Bool, not, List, [], ◌∷◌, ◌==◌, shl, shr, at_or, modify, replicate,
}

-- `kWords` words of zeros.
unfoldable pub empty_bins : ℕ → List ℕ
empty_bins bins = replicate ((bins + 63) / 64) 0

unfoldable pub test : List ℕ → ℕ → Bool
test words i = not (bit_and (shr (at_or 0 words (shr i 6)) (bit_and i 63)) 1 == 0)

unfoldable pub set : ℕ → List ℕ → List ℕ
set i words = modify (shr i 6) (λ w. bit_or w (shl 64 1 (bit_and i 63))) words

unfoldable pub union : List ℕ → List ℕ → List ℕ
union [] others = []
union (w ∷ words) [] = []
union (w ∷ words) (o ∷ others) = bit_or w o ∷ union words others
