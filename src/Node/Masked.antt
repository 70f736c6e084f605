-- ===== src/Node/Masked.antt =====
-- The mask made from the counts has the bins whose count is not 0.
use Prim.Native.Nat.{min}
use native.Mathlib.Nat.{pow-le-pow_right}
use air_tree.Common.{
  ℕ, zero, suc, ◌+◌, ◌-◌, ◌*◌, ◌/◌, ◌%◌, ◌^◌, ◌<◌, ◌≤◌, ◌≡◌, ◌∙◌, refl, ap, arith, List, ◌==◌,
  if◌then◌else◌, ltb, not, Bool-cases, inl, inr, length, false, bit, bit-suc, at_or, bit-zero,
  join_bits, to_int, at_or-beyond, pow_add,
}
use air_tree.Mask.{mask_words}
use air_tree.Mask.RoundTrip.{AreWords}
use air_tree.Populated.{test}
use air_tree.Populated.Laws.{test_lem}
use air_tree.Node.{mask_loop, mask_words_loop, mask_from_counts}

-- 1 for a bin whose count is not 0.
abbrev flag : List ℕ → ℕ → ℕ
flag counts i = to_int (not (at_or 0 counts i == 0))

-- The number whose bits are the flags of `n` bins.
abbrev flags : ℕ → ℕ → List ℕ → ℕ
flags zero base counts = 0
flags (suc n) base counts = flag counts base + 2 * flags n (suc base) counts

flag-lt : (counts : List ℕ) (i : ℕ) → flag counts i < 2 ^ 1
flag-lt counts i = ground arith

mask_loop-flags :
    (n base i : ℕ) (counts : List ℕ) (m : ℕ)
    → i + n ≤ 64
    → m < 2 ^ i
    → (mask_loop n base i counts m ≡ m + 2 ^ i * flags n (base + i) counts)
      × (mask_loop n base i counts m < 2 ^ 64)
unfolding mask_loop
mask_loop-flags zero base i counts m room small =
    let le : i ≤ 64 = omega (arith, room) in
    let all : 2 ^ i ≤ 2 ^ 64 = pow-le-pow_right (omega arith) le in (omega arith, omega arith)
mask_loop-flags (suc n) base i counts m room small =
    let f = flag counts (base + i) in
    let (joined, below) = join_bits i 1 m f small (flag-lt counts (base + i)) (omega arith) in
    let size : i + 1 ≡ suc i = omega arith in
    let next : base + suc i ≡ suc (base + i) = omega arith in
    let (sum, word) =
      mask_loop-flags n base (suc i) counts (m + 2 ^ i * f) (omega arith) (rw size at below) in
    rw joined (sum ∙ rw (next, ← size, pow_add i 1) (omega arith), word)

bit-flags :
    (n base : ℕ) (counts : List ℕ) (j : ℕ)
    → bit (flags n base counts) j ≡ (if ltb j n then flag counts (base + j) else 0)
bit-flags zero base counts j = bit-zero j ∙ ground arith
bit-flags (suc n) base counts zero =
    let e : base + 0 ≡ base = omega arith in rw e (ground (arith, flag-lt counts base))
bit-flags (suc n) base counts (suc j) =
    let half : (flag counts base + 2 * flags n (suc base) counts) / 2 ≡ flags n (suc base) counts =
      omega (arith, flag-lt counts base) in
    let next : base + suc j ≡ suc base + j = omega arith in
    rw (bit-suc (flags (suc n) base counts) j, half, bit-flags n (suc base) counts j, next)
      (ground arith)

length-mask_words_loop :
    (n w bins : ℕ) (counts : List ℕ) → length (mask_words_loop n w bins counts) ≡ n
unfolding mask_words_loop
length-mask_words_loop zero w bins counts = refl
length-mask_words_loop (suc n) w bins counts = ap suc (length-mask_words_loop n (suc w) bins counts)

mask_words_loop-AreWords :
    (n w bins : ℕ) (counts : List ℕ) → AreWords (mask_words_loop n w bins counts)
unfolding mask_words_loop
mask_words_loop-AreWords zero w bins counts = tt
mask_words_loop-AreWords (suc n) w bins counts = (
  (mask_loop-flags (min bins (w * 64 + 64) - w * 64) (w * 64) 0 counts 0 (omega arith)
      (omega arith)).1,
  mask_words_loop-AreWords n (suc w) bins counts,
)

at_or-mask_words_loop :
    (n w bins : ℕ) (counts : List ℕ) (q : ℕ)
    → q < n
    → at_or 0 (mask_words_loop n w bins counts) q
      ≡ flags (min bins ((w + q) * 64 + 64) - (w + q) * 64) ((w + q) * 64) counts
unfolding mask_words_loop
at_or-mask_words_loop zero w bins counts q h = absurd (omega arith)
at_or-mask_words_loop (suc n) w bins counts zero h =
    let e : w + 0 ≡ w = omega arith in
    let base : w * 64 + 0 ≡ w * 64 = omega arith in
    rw e (
      (mask_loop-flags (min bins (w * 64 + 64) - w * 64) (w * 64) 0 counts 0 (omega arith)
        (omega arith)).0
      ∙ rw base (omega arith))
at_or-mask_words_loop (suc n) w bins counts (suc q) h =
    let e : w + suc q ≡ suc w + q = omega arith in
    rw e (at_or-mask_words_loop n (suc w) bins counts q (omega arith))

module _ (counts : List ℕ) (bins : ℕ) where
  -- The mask has the words of the node, of 64 bits each.
  pub length-mask_from_counts : length (mask_from_counts counts bins) ≡ mask_words bins
  unfolding mask_from_counts
  length-mask_from_counts = length-mask_words_loop (mask_words bins) 0 bins counts

  pub mask_from_counts-AreWords : AreWords (mask_from_counts counts bins)
  unfolding mask_from_counts
  mask_from_counts-AreWords = mask_words_loop-AreWords (mask_words bins) 0 bins counts

  word_at :
      (j : ℕ)
      → bit (at_or 0 (mask_from_counts counts bins) (j / 64)) (j % 64)
        ≡ (if ltb j bins then flag counts j else 0)
  unfolding mask_from_counts
  word_at j = elim (Bool-cases (ltb (j / 64) (mask_words bins))) [
    | inl inside ↦
        let base = j / 64 * 64 in
        let start : (0 + j / 64) * 64 ≡ base = omega arith in
        let place : base + j % 64 ≡ j = omega arith in
        rw
          (
            at_or-mask_words_loop (mask_words bins) 0 bins counts (j / 64) (ground arith),
            start,
            bit-flags (min bins (base + 64) - base) base counts (j % 64),
            place,
          )
          (ground arith)
    | inr outside ↦
        let past : length (mask_words_loop (mask_words bins) 0 bins counts) ≤ j / 64 =
          ground (arith, length-mask_words_loop (mask_words bins) 0 bins counts) in
        let beyond : ltb j bins ≡ false = ground arith in
        rw (at_or-beyond 0 (mask_words_loop (mask_words bins) 0 bins counts) (j / 64) past, beyond)
          (bit-zero (j % 64))
  ]

  -- A bin is in the mask exactly if its count is not 0. There are as many counts as bins.
  pub test-mask_from_counts :
      (j : ℕ)
      → length counts ≡ bins
      → test (mask_from_counts counts bins) j ≡ not (at_or 0 counts j == 0)
  test-mask_from_counts j size =
      rw (test_lem (mask_from_counts counts bins) j, word_at j)
        (elim (Bool-cases (ltb j bins)) [
          | inl inside ↦ rw inside (ground arith)
          | inr outside ↦ rw (outside, at_or-beyond 0 counts j (ground (arith, size))) refl
        ])
