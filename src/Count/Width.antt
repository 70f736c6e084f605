-- ===== src/Count/Width.antt =====
-- `minimumBits` is the number of bits of a count.
use native.Mathlib.Nat.{pow-suc}
use air_tree.Common.{
  ℕ, zero, suc, ◌+◌, ◌-◌, ◌/◌, ◌^◌, ◌<◌, ◌≤◌, ◌≡◌, ◌∙◌, refl, arith, some, ◌==◌, Bool-cases, inl,
  inr, ◌⊎◌, ap, false,
}
use air_tree.Count.{width_loop, minimum_bits}

-- `b` is the number of bits of `n`, which is not 0.
abbrev pub HasWidth : ℕ → ℕ → Type 0
HasWidth n b = (1 ≤ b) × (2 ^ (b - 1) ≤ n) × (n < 2 ^ b)

width_loop_lem :
    (k n bits : ℕ)
    → 0 < n
    → n < 2 ^ k
    → (b : ℕ) × HasWidth n b × (b ≤ k) × (width_loop (suc k) n bits ≡ some (bits + b))
unfolding width_loop
width_loop_lem zero n bits pos small = absurd (omega arith)
width_loop_lem (suc k) n bits pos small = elim (Bool-cases (n / 2 == 0)) [
  | inl one ↦ let is_one : n ≡ 1 = ground arith in (1, ground arith, omega arith, rw is_one refl)
  | inr more ↦
      let (b, (low, at_least, below), fits, e) =
        width_loop_lem k (n / 2) (bits + 1) (ground arith) (omega (arith, pow-suc 2 k)) in
      let not_zero : (n == 0) ≡ false = ground arith in
      let again : suc b - 1 ≡ suc (b - 1) = omega arith in
      (
        suc b,
        (omega arith, rw again (omega (arith, pow-suc 2 (b - 1))), omega (arith, pow-suc 2 b)),
        omega arith,
        rw not_zero (e ∙ ap some (omega arith)),
      )
]

-- `minimumBits` returns for every `uint32_t`. The width is from 1 to 32, the number fits in it, and in
-- no smaller one unless the width is 1.
pub minimum_bits_lem :
    (n : ℕ)
    → n < 2 ^ 32
    → (b : ℕ) × (minimum_bits n ≡ some b)
      × (1 ≤ b)
      × (b ≤ 32)
      × (n < 2 ^ b)
      × (b ≡ 1 ⊎ 2 ^ (b - 1) ≤ n)
unfolding minimum_bits
minimum_bits_lem n small = elim (Bool-cases (n == 0)) [
  | inl empty ↦ (1, rw empty refl, omega arith, omega arith, ground arith, inl refl)
  | inr some_bit ↦
      let (b, (low, at_least, below), fits, e) = width_loop_lem 32 n 0 (ground arith) small in
      (b, rw some_bit (e ∙ ap some (omega arith)), low, fits, below, inr at_least)
]
