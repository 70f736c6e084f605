-- ===== src/SetBits/Member.antt =====
-- The loop over a mask visits the bins that `test` finds in it.
use air_tree.Common.{
  ℕ, zero, suc, ◌+◌, ◌-◌, ◌*◌, ◌/◌, ◌%◌, ◌<◌, ◌≤◌, ◌≡◌, ◌∙◌, refl, arith, Bool, List, [], ◌∷◌, ◌++◌,
  ◌==◌, if◌then◌else◌, ltb, leb, Bool-cases, inl, inr, length, false, true, ◌&&◌, ◌||◌, bit,
  bit-suc, at_or, at_or-beyond, at_or-modify, modify, length-modify, bit-zero,
}
use air_tree.Mask.{mask_words}
use air_tree.Mask.RoundTrip.{AreWords}
use air_tree.Populated.{test}
use air_tree.Populated.Laws.{test_lem}
use air_tree.SetBits.{set_bits}
use air_tree.SetBits.Ones.{ones, word_ones, set_bits-ones}

abbrev pub mem : ℕ → List ℕ → Bool
mem j [] = false
mem j (i ∷ is) = (i == j) || mem j is

-- Every bin of a list lies below `bins`.
abbrev pub AllBelow : ℕ → List ℕ → Type 0
AllBelow bins [] = Unit {0}
AllBelow bins (i ∷ is) = (i < bins) × AllBelow bins is

mem-append : (j : ℕ) (is js : List ℕ) → mem j (is ++ js) ≡ (mem j is || mem j js)
mem-append j [] js = refl
mem-append j (i ∷ is) js = rw (mem-append j is js) (ground arith)

mem-ones :
    (n base m j : ℕ)
    → mem j (ones n base m) ≡ ((leb base j && ltb j (base + n)) && (bit m (j - base) == 1))
unfolding ones
mem-ones zero base m j = ground arith
mem-ones (suc n) base m j =
    let rest = mem-ones n (suc base) (m / 2) j in
    let ends : suc base + n ≡ base + suc n = omega arith in
    elim (Bool-cases (base == j)) [
      | inl here ↦
          let first : j - base ≡ 0 = ground arith in
          let later : leb (suc base) j ≡ false = ground arith in
          let from : leb base j ≡ true = ground arith in
          let to : ltb j (base + suc n) ≡ true = ground arith in
          let low : bit m 0 ≡ m % 2 = omega arith in
          elim (Bool-cases (m % 2 == 1)) [
            | inl odd ↦ rw (odd, here, from, to, first, low, odd) refl
            | inr even ↦ rw (even, rest, later, from, to, first, low, even) refl
          ]
      | inr there ↦
          let skip : mem j (ones (suc n) base m) ≡ mem j (ones n (suc base) (m / 2)) =
            elim (Bool-cases (m % 2 == 1)) [
              | inl odd ↦ rw (odd, there) refl
              | inr even ↦ rw even refl
            ] in
          skip ∙ rest ∙ elim (Bool-cases (leb (suc base) j)) [
            | inl after ↦
                let from : leb base j ≡ true = ground arith in
                let next : j - base ≡ suc (j - suc base) = ground arith in
                rw (after, from, ends, next, bit-suc m (j - suc base)) refl
            | inr before ↦
                let not_yet : leb base j ≡ false = ground arith in rw (before, not_yet) refl
          ]
    ]

mem-word_ones_below :
    (n w : ℕ) (words : List ℕ) (j : ℕ) → j < w * 64 → mem j (word_ones n w words) ≡ false
unfolding word_ones
mem-word_ones_below zero w words j h = refl
mem-word_ones_below (suc n) w [] j h = refl
mem-word_ones_below (suc n) w (m ∷ words) j h =
    let before : leb (w * 64) j ≡ false = ground arith in
    rw
      (
        mem-append j (ones 64 (w * 64) m) (word_ones n (suc w) words),
        mem-ones 64 (w * 64) m j,
        before,
        mem-word_ones_below n (suc w) words j (omega arith),
      )
      refl

mem-word_ones :
    (n w : ℕ) (words : List ℕ) (j : ℕ)
    → n ≤ length words
    → w * 64 ≤ j
    → mem j (word_ones n w words)
      ≡ (ltb j ((w + n) * 64) && (bit (at_or 0 words (j / 64 - w)) (j % 64) == 1))
unfolding word_ones
mem-word_ones zero w words j le from = ground arith
mem-word_ones (suc n) w [] j le from = absurd (omega arith)
mem-word_ones (suc n) w (m ∷ words) j le from =
    rw (mem-append j (ones 64 (w * 64) m) (word_ones n (suc w) words), mem-ones 64 (w * 64) m j)
      (elim (Bool-cases (ltb j (w * 64 + 64))) [
        | inl here ↦
            let start : leb (w * 64) j ≡ true = ground arith in
            let inside : ltb j ((w + suc n) * 64) ≡ true = ground arith in
            let first : j / 64 - w ≡ 0 = ground arith in
            let place : j - w * 64 ≡ j % 64 = ground arith in
            rw
              (
                start,
                here,
                inside,
                first,
                place,
                mem-word_ones_below n (suc w) words j (ground arith),
              )
              (ground arith)
        | inr there ↦
            let next : j / 64 - w ≡ suc (j / 64 - suc w) = ground arith in
            let ends : (w + suc n) * 64 ≡ (suc w + n) * 64 = omega arith in
            rw (there, next, ends, mem-word_ones n (suc w) words j (omega arith) (ground arith))
              (ground arith)
      ])

-- The bins visited are those that `test` finds.
pub mem-set_bits :
    (mask : List ℕ) (bins j : ℕ)
    → AreWords mask
    → length mask ≡ mask_words bins
    → mem j (set_bits mask bins) ≡ test mask j
mem-set_bits mask bins j words size =
    rw
      (
        set_bits-ones mask bins words,
        mem-word_ones (mask_words bins) 0 mask j (omega (arith, size)) (omega arith),
        test_lem mask j,
      )
      (elim (Bool-cases (ltb j ((0 + mask_words bins) * 64))) [
        | inl inside ↦ rw inside (ground arith)
        | inr outside ↦
            let past : length mask ≤ j / 64 = ground (arith, size) in
            rw (outside, at_or-beyond 0 mask (j / 64) past, bit-zero (j % 64)) refl
      ])

all_below : (bins : ℕ) (is : List ℕ) → ((j : ℕ) → bins ≤ j → mem j is ≡ false) → AllBelow bins is
all_below bins [] none_past = tt
all_below bins (i ∷ is) none_past = (
  elim (Bool-cases (ltb i bins)) [
    | inl inside ↦ ground arith
    | inr outside ↦
        let found : (i == i) ≡ true = ground arith in
        absurd (ground (arith, found, none_past i (ground arith)))
  ],
  all_below bins is (λ j h. ground (arith, none_past j h)),
)

-- A mask with no bin past the node's is visited inside the node.
pub set_bits-AllBelow :
    (mask : List ℕ) (bins : ℕ)
    → AreWords mask
    → length mask ≡ mask_words bins
    → ((j : ℕ) → bins ≤ j → test mask j ≡ false)
    → AllBelow bins (set_bits mask bins)
set_bits-AllBelow mask bins words size none_past =
    all_below bins (set_bits mask bins) (λ j h. mem-set_bits mask bins j words size ∙ none_past j h)

module _ {ℓ} {A : Type ℓ} (d : A) where
  -- The places get what another list has there.
  abbrev pub put_all : List ℕ → List A → List A → List A
  put_all [] source xs = xs
  put_all (i ∷ is) source xs = put_all is source (modify i (λ x. at_or d source i) xs)

  pub length-put_all :
      (is : List ℕ) (source xs : List A) → length (put_all is source xs) ≡ length xs
  length-put_all [] source xs = refl
  length-put_all (i ∷ is) source xs =
      length-put_all is source (modify i (λ x. at_or d source i) xs) ∙ length-modify i _ xs

  pub at_or-put_all :
      (is : List ℕ) (source xs : List A) (j : ℕ)
      → AllBelow (length xs) is
      → at_or d (put_all is source xs) j ≡ (if mem j is then at_or d source j else at_or d xs j)
  at_or-put_all [] source xs j below = refl
  at_or-put_all (i ∷ is) source xs j below =
      let kept : AllBelow (length (modify i (λ x. at_or d source i) xs)) is =
        rw (length-modify i (λ x. at_or d source i) xs) below.1 in
      rw
        (
          at_or-put_all is source (modify i (λ x. at_or d source i) xs) j kept,
          at_or-modify d i (λ x. at_or d source i) xs j below.0,
        )
        (elim (Bool-cases (i == j)) [
          | inl here ↦ let e : i ≡ j = ground arith in rw (here, e) (ground arith)
          | inr there ↦ rw there refl
        ])
