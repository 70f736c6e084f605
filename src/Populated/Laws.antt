-- ===== src/Populated/Laws.antt =====
-- The bitset is the set of the bins put into it.
use air_tree.Common.{
  ℕ, zero, suc, ◌+◌, ◌*◌, ◌/◌, ◌%◌, ◌^◌, ◌<◌, ◌≤◌, ◌≡◌, refl, arith, bit_or, false, not, ◌||◌, List,
  [], ◌∷◌, ◌==◌, at_or, at_or-beyond, bit_or-lt, at_or-replicate, modify, replicate, bit-zero,
  length, at_or-modify, length-modify, bit, bit-bit_or, bit-pow, bit_and_low1, shl_one,
  bit_and_low6, Bool-cases, inl, inr,
}
use native.Mathlib.Nat.{pow-le-pow_right, one-le-pow, pow-suc}
use air_tree.Mask.RoundTrip.{AreWords}
use air_tree.Populated.{empty_bins, test, set, union}

-- The bit that `test` looks at.
pub test_lem :
    (words : List ℕ) (i : ℕ) → test words i ≡ not (bit (at_or 0 words (i / 64)) (i % 64) == 0)
unfolding test
test_lem words i = rw (bit_and_low1 _, bit_and_low6 i) refl

set_lem :
    (i : ℕ) (words : List ℕ) → set i words ≡ modify (i / 64) (λ w. bit_or w (2 ^ (i % 64))) words
unfolding set
set_lem i words = rw (bit_and_low6 i, shl_one (i % 64) (omega arith)) refl

-- The bit of a word that bin `i` is put into.
set_bit : (w k j : ℕ) → not (bit (bit_or w (2 ^ k)) j == 0) ≡ ((k == j) || not (bit w j == 0))
set_bit w k j = rw (bit-bit_or w (2 ^ k) j, bit-pow k j) (ground arith)

-- After `set(i)` the bins are those before and bin `i`; the number of words stays.
pub test-set :
    (words : List ℕ) (i j : ℕ)
    → i < 64 * length words
    → (test (set i words) j ≡ ((i == j) || test words j)) × (length (set i words) ≡ length words)
test-set words i j h = (
  rw
      (
        set_lem i words,
        test_lem (modify (i / 64) (λ w. bit_or w (2 ^ (i % 64))) words) j,
        test_lem words j,
        at_or-modify 0 (i / 64) (λ w. bit_or w (2 ^ (i % 64))) words (j / 64) (omega arith),
      )
      (elim (Bool-cases (i / 64 == j / 64)) [
        | inl same ↦ rw (same, set_bit (at_or 0 words (j / 64)) (i % 64) (j % 64)) (ground arith)
        | inr other ↦ rw other (ground arith)
      ]),
  rw (set_lem i words) (length-modify (i / 64) _ words),
)

at_or-union :
    (words others : List ℕ) (q : ℕ)
    → length words ≡ length others
    → at_or 0 (union words others) q ≡ bit_or (at_or 0 words q) (at_or 0 others q)
unfolding union
at_or-union [] [] q same = refl
at_or-union [] (o ∷ others) q same = absurd (omega arith)
at_or-union (w ∷ words) [] q same = absurd (omega arith)
at_or-union (w ∷ words) (o ∷ others) zero same = refl
at_or-union (w ∷ words) (o ∷ others) (suc q) same = at_or-union words others q (omega arith)

-- The bins of a union are those of the two.
pub test-union :
    (words others : List ℕ) (i : ℕ)
    → length words ≡ length others
    → test (union words others) i ≡ (test words i || test others i)
test-union words others i same =
    rw
      (
        test_lem (union words others) i,
        test_lem words i,
        test_lem others i,
        at_or-union words others (i / 64) same,
        bit-bit_or (at_or 0 words (i / 64)) (at_or 0 others (i / 64)) (i % 64),
      )
      (ground arith)

-- No bin is populated at first.
pub test-empty_bins : (bins i : ℕ) → test (empty_bins bins) i ≡ false
unfolding empty_bins
test-empty_bins bins i =
    rw
      (
        test_lem (replicate ((bins + 63) / 64) 0) i,
        at_or-replicate {A = ℕ} 0 ((bins + 63) / 64) (i / 64),
        bit-zero (i % 64),
      )
      refl

modify-AreWords :
    (q : ℕ) (f : ℕ → ℕ) (words : List ℕ)
    → ((w : ℕ) → w < 2 ^ 64 → f w < 2 ^ 64)
    → AreWords words
    → AreWords (modify q f words)
modify-AreWords q f [] keeps h = tt
modify-AreWords zero f (w ∷ words) keeps h = (keeps w h.0, h.1)
modify-AreWords (suc q) f (w ∷ words) keeps h = (h.0, modify-AreWords q f words keeps h.1)

-- The words stay words.
pub set-AreWords : (i : ℕ) (words : List ℕ) → AreWords words → AreWords (set i words)
set-AreWords i words h =
    let below : i % 64 < 64 = omega arith in
    let double : 2 ^ suc (i % 64) ≤ 2 ^ 64 = pow-le-pow_right (omega arith) below in
    let pos : 1 ≤ 2 ^ (i % 64) = one-le-pow (i % 64) 2 (omega arith) in
    let pow : 2 ^ (i % 64) < 2 ^ 64 = omega (arith, pow-suc 2 (i % 64)) in
    rw (set_lem i words)
      (modify-AreWords (i / 64) _ words (λ w hw. bit_or-lt 64 w (2 ^ (i % 64)) hw pow) h)

-- No bin lies past the words.
pub test-beyond : (words : List ℕ) (j : ℕ) → 64 * length words ≤ j → test words j ≡ false
test-beyond words j h =
    rw (test_lem words j, at_or-beyond 0 words (j / 64) (omega arith)) (rw (bit-zero (j % 64)) refl)

replicate-AreWords : (n : ℕ) → AreWords (replicate n 0)
replicate-AreWords zero = tt
replicate-AreWords (suc n) = (omega arith, replicate-AreWords n)

pub empty_bins-AreWords : (bins : ℕ) → AreWords (empty_bins bins)
unfolding empty_bins
empty_bins-AreWords bins = replicate-AreWords ((bins + 63) / 64)
