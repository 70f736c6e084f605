-- ===== src/Populated/Tests.antt =====
-- The theorems on bitsets at concrete bins.
use air_tree.Common.{◌≡◌, refl, arith, false, [], ◌∷◌, ◌==◌, ◌||◌, length}
use air_tree.Populated.{test, set, empty_bins}
use air_tree.Populated.Laws.{test-set, test-empty_bins}

set_seventy : set 70 (1 ∷ 2 ∷ []) ≡ 1 ∷ 66 ∷ []
unfolding set
set_seventy = refl

test-set_example :
    (test (set 70 (1 ∷ 2 ∷ [])) 65 ≡ ((70 == 65) || test (1 ∷ 2 ∷ []) 65))
    × (length (set 70 (1 ∷ 2 ∷ [])) ≡ 2)
test-set_example = test-set (1 ∷ 2 ∷ []) 70 65 (omega arith)

test-empty_bins_example : test (empty_bins 256) 200 ≡ false
test-empty_bins_example = test-empty_bins 256 200
