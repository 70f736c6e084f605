-- ===== src/SetBits/Ones.antt =====
-- The loop visits the ones of each word, in order.
use native.Mathlib.Nat.{pow-suc, pow-le-pow_right}
use air_tree.Common.{
  ℕ, zero, suc, ◌+◌, ◌-◌, ◌*◌, ◌/◌, ◌%◌, ◌^◌, ◌<◌, ◌≤◌, ◌≡◌, ◌∙◌, refl, sym, ap, arith, bit_and,
  List, [], ◌∷◌, ◌++◌, ◌==◌, if◌then◌else◌, Bool-cases, inl, inr, length, length-append, false,
  true, low_bit_odd, low_bit_even, bit_and-le,
}
use air_tree.Mask.{mask_words}
use air_tree.Mask.RoundTrip.{AreWords}
use air_tree.SetBits.{
  set_bits, countr_zero_from, countr_zero, popcount_from, bits_loop, words_loop, popcount_words,
}

-- The ones among `n` bits, bit by bit.
unfoldable pub ones : ℕ → ℕ → ℕ → List ℕ
ones zero base m = []
ones (suc n) base m =
    let rest = ones n (suc base) (m / 2) in if m % 2 == 1 then base ∷ rest else rest

countr_zero_from-suc :
    (n m : ℕ) → 0 < m → m < 2 ^ n → countr_zero_from (suc n) m ≡ countr_zero_from n m
unfolding countr_zero_from
countr_zero_from-suc zero m pos small = absurd (omega arith)
countr_zero_from-suc (suc n) m pos small = elim (Bool-cases (m % 2 == 1)) [
  | inl odd ↦ rw odd refl
  | inr even ↦
      rw even (ap suc (countr_zero_from-suc n (m / 2) (ground arith) (omega (arith, pow-suc 2 n))))
]

countr_zero_from-even : (n m : ℕ) → countr_zero_from (suc n) (2 * m) ≡ suc (countr_zero_from n m)
unfolding countr_zero_from
countr_zero_from-even n m =
    let even : (2 * m % 2 == 1) ≡ false = ground arith in
    let half : 2 * m / 2 ≡ m = omega arith in rw (even, half) refl

countr_zero-double : (m : ℕ) → 0 < m → m < 2 ^ 63 → countr_zero (2 * m) ≡ suc (countr_zero m)
unfolding countr_zero
countr_zero-double m pos small =
    let one : countr_zero_from 64 (2 * m) ≡ suc (countr_zero_from 63 m) =
      countr_zero_from-even 63 m in
    one ∙ ap suc (sym (countr_zero_from-suc 63 m pos small))

bits_loop-double :
    (fuel base m : ℕ) → m < 2 ^ 63 → bits_loop fuel base (2 * m) ≡ bits_loop fuel (suc base) m
unfolding bits_loop
bits_loop-double zero base m small = refl
bits_loop-double (suc fuel) base m small = elim (Bool-cases (m == 0)) [
  | inl none_left ↦ let done : (2 * m == 0) ≡ true = ground arith in rw (none_left, done) refl
  | inr more ↦
      let pos : 0 < m = ground arith in
      let more' : (2 * m == 0) ≡ false = ground arith in
      let here : base + countr_zero (2 * m) ≡ suc base + countr_zero m =
        omega (arith, countr_zero-double m pos small) in
      let less : bit_and m (m - 1) < 2 ^ 63 = omega (arith, bit_and-le m (m - 1)) in
      rw (more, more', here, low_bit_even m pos)
        (ap (λ (t : List ℕ). (suc base + countr_zero m) ∷ t)
          (bits_loop-double fuel base (bit_and m (m - 1)) less))
]

-- A round on a word whose lowest bit is set.
bits_loop-odd :
    (fuel base q : ℕ)
    → q < 2 ^ 63
    → bits_loop (suc fuel) base (2 * q + 1) ≡ base ∷ bits_loop fuel (suc base) q
unfolding bits_loop countr_zero countr_zero_from
bits_loop-odd fuel base q small =
    let some_bit : (2 * q + 1 == 0) ≡ false = ground arith in
    let low : ((2 * q + 1) % 2 == 1) ≡ true = ground arith in
    let here : base + 0 ≡ base = omega arith in
    rw (some_bit, low, here, low_bit_odd q)
      (ap (λ (t : List ℕ). base ∷ t) (bits_loop-double fuel base q small))

bits_loop-empty : (fuel base m : ℕ) → m < 1 → bits_loop fuel base m ≡ []
unfolding bits_loop
bits_loop-empty zero base m small = refl
bits_loop-empty (suc fuel) base m small =
    let empty : (m == 0) ≡ true = ground arith in rw empty refl

bits_loop-ones :
    (n fuel base m : ℕ) → n ≤ fuel → n ≤ 64 → m < 2 ^ n → bits_loop fuel base m ≡ ones n base m
unfolding ones
bits_loop-ones zero fuel base m enough fits small = bits_loop-empty fuel base m (omega arith)
bits_loop-ones (suc n) zero base m enough fits small = absurd (omega arith)
bits_loop-ones (suc n) (suc fuel) base m enough fits small =
    let halved : m / 2 < 2 ^ n = omega (arith, pow-suc 2 n) in
    let below : n ≤ 63 = omega arith in
    let inside : 2 ^ n ≤ 2 ^ 63 = pow-le-pow_right (omega arith) below in
    elim (Bool-cases (m % 2 == 1)) [
      | inl odd ↦
          let e : m ≡ 2 * (m / 2) + 1 = ground arith in
          rw odd (
            ap (λ (t : ℕ). bits_loop (suc fuel) base t) e
            ∙ bits_loop-odd fuel base (m / 2) (omega arith)
            ∙ ap (λ (t : List ℕ). base ∷ t)
                (bits_loop-ones n fuel (suc base) (m / 2) (omega arith) (omega arith) halved))
      | inr even ↦
          let e : m ≡ 2 * (m / 2) = ground arith in
          rw even (
            ap (λ (t : ℕ). bits_loop (suc fuel) base t) e
            ∙ bits_loop-double (suc fuel) base (m / 2) (omega arith)
            ∙ bits_loop-ones n (suc fuel) (suc base) (m / 2) (omega arith) (omega arith) halved)
    ]

-- The ones of `n` words, the next of them at index `w`.
unfoldable pub word_ones : ℕ → ℕ → List ℕ → List ℕ
word_ones zero w words = []
word_ones (suc n) w [] = []
word_ones (suc n) w (m ∷ words) = ones 64 (w * 64) m ++ word_ones n (suc w) words

words_loop-ones :
    (n w : ℕ) (words : List ℕ) → AreWords words → words_loop n w words ≡ word_ones n w words
unfolding words_loop word_ones
words_loop-ones zero w words h = refl
words_loop-ones (suc n) w [] h = refl
words_loop-ones (suc n) w (m ∷ words) h =
    rw
      (
        bits_loop-ones 64 64 (w * 64) m (omega arith) (omega arith) h.0,
        words_loop-ones n (suc w) words h.1,
      )
      refl

length-ones : (n base m : ℕ) → length (ones n base m) ≡ popcount_from n m
unfolding popcount_from ones
length-ones zero base m = refl
length-ones (suc n) base m = elim (Bool-cases (m % 2 == 1)) [
  | inl odd ↦ rw odd (ground (arith, length-ones n (suc base) (m / 2)))
  | inr even ↦ rw even (ground (arith, length-ones n (suc base) (m / 2)))
]

length-word_ones :
    (n w : ℕ) (words : List ℕ) → length (word_ones n w words) ≡ popcount_words n words
unfolding popcount_words word_ones
length-word_ones zero w words = refl
length-word_ones (suc n) w [] = refl
length-word_ones (suc n) w (m ∷ words) =
    length-append (ones 64 (w * 64) m) (word_ones n (suc w) words)
    ∙ omega (arith, length-ones 64 (w * 64) m, length-word_ones n (suc w) words)

pub set_bits-ones :
    (mask : List ℕ) (bins : ℕ)
    → AreWords mask
    → set_bits mask bins ≡ word_ones (mask_words bins) 0 mask
unfolding set_bits
set_bits-ones mask bins words = words_loop-ones (mask_words bins) 0 mask words

-- As many bins as there are ones.
pub length-set_bits :
    (mask : List ℕ) (bins : ℕ)
    → AreWords mask
    → length (set_bits mask bins) ≡ popcount_words (mask_words bins) mask
length-set_bits mask bins words =
    ap length (set_bits-ones mask bins words) ∙ length-word_ones (mask_words bins) 0 mask

length-ones-le : (n base m : ℕ) → length (ones n base m) ≤ n
unfolding ones
length-ones-le zero base m = omega arith
length-ones-le (suc n) base m = ground (arith, length-ones-le n (suc base) (m / 2))

length-word_ones-le : (n w : ℕ) (words : List ℕ) → length (word_ones n w words) ≤ n * 64
unfolding word_ones
length-word_ones-le zero w words = omega arith
length-word_ones-le (suc n) w [] = omega arith
length-word_ones-le (suc n) w (m ∷ words) = omega (
  arith,
  length-append (ones 64 (w * 64) m) (word_ones n (suc w) words),
  length-ones-le 64 (w * 64) m,
  length-word_ones-le n (suc w) words,
)

-- No more bins than the words have bits.
pub length-set_bits-le :
    (mask : List ℕ) (bins : ℕ) → AreWords mask → length (set_bits mask bins) ≤ mask_words bins * 64
length-set_bits-le mask bins words =
    rw (set_bits-ones mask bins words) (length-word_ones-le (mask_words bins) 0 mask)
