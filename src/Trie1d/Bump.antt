-- ===== src/Trie1d/Bump.antt =====
-- Lists of counters and their sums.
use native.Mathlib.Nat.{mod-eq_of_lt}
use air_tree.Common.{
  ℕ, zero, suc, ◌+◌, ◌%◌, ◌^◌, ◌≤◌, ◌<◌, ◌≡◌, ◌∙◌, refl, arith, List, [], ◌∷◌, replicate, length,
  at_or,
}
use air_tree.Trie1d.{bump, add_counts, sum_counts}

abbrev pub sum : List ℕ → ℕ
sum [] = 0
sum (c ∷ counts) = c + sum counts

-- Raising a counter raises the sum, while this fits.
pub sum-bump :
    (i : ℕ) (counts : List ℕ)
    → i < length counts
    → sum counts + 1 < 2 ^ 32
    → sum (bump i counts) ≡ sum counts + 1
sum-bump i [] h small = absurd (omega arith)
sum-bump zero (c ∷ counts) h small = omega arith
sum-bump (suc i) (c ∷ counts) h small = omega (arith, sum-bump i counts (omega arith) (omega arith))

-- Adding up on a `uint32_t` gives the remainder of the sum.
pub add_counts-mod :
    (counts : List ℕ) (total : ℕ)
    → total < 2 ^ 32
    → add_counts counts total ≡ (total + sum counts) % 2 ^ 32
unfolding add_counts
add_counts-mod [] total small = omega arith
add_counts-mod (c ∷ counts) total small =
    add_counts-mod counts ((total + c) % 2 ^ 32) (omega arith) ∙ omega arith

pub sum_counts-sum :
    (counts : List ℕ) (total : ℕ)
    → total + sum counts < 2 ^ 32
    → sum_counts counts total ≡ total + sum counts
unfolding sum_counts
sum_counts-sum [] total small = omega arith
sum_counts-sum (c ∷ counts) total small =
    rw (mod-eq_of_lt {n = total + c} {m = 2 ^ 64} (omega arith))
      (sum_counts-sum counts (total + c) (omega arith) ∙ omega arith)

pub sum-replicate : (n : ℕ) → sum (replicate n 0) ≡ 0
sum-replicate zero = refl
sum-replicate (suc n) = omega (arith, sum-replicate n)

-- A counter is at most the sum.
pub at_or-le-sum : (counts : List ℕ) (i : ℕ) → at_or 0 counts i ≤ sum counts
at_or-le-sum [] i = omega arith
at_or-le-sum (c ∷ counts) zero = omega arith
at_or-le-sum (c ∷ counts) (suc i) = omega (arith, at_or-le-sum counts i)
