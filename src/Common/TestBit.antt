-- ===== src/Common/TestBit.antt =====
-- Single bits of `|`.
use Prim.Native.Nat.{ℕ, zero, suc, ◌+◌, ◌*◌, ◌/◌, ◌%◌, ◌^◌, ◌≤◌, max}
use Prim.Native.Nat.{bit_or, digits, bit_or-bitwise}
use mathlib.Core.Path.{◌≡◌, refl, sym, ap}
use native.Mathlib.Nat.{pow-suc, div-div-eq-div-mul, le_refl, zero-div}
use air_tree.Common.Tests.{◌==◌, if◌then◌else◌}
use native.Mathlib.Omega.{arith}

-- Bit `j` of `x`.
abbrev pub bit : ℕ → ℕ → ℕ
bit x j = x / 2 ^ j % 2

pub bit-suc : (x j : ℕ) → bit x (suc j) ≡ bit (x / 2) j
bit-suc x j =
    let double : 2 ^ suc j ≡ 2 * 2 ^ j = omega (arith, pow-suc 2 j) in
    rw double (ap (λ (t : ℕ). t % 2) (sym (div-div-eq-div-mul x 2 (2 ^ j))))

pub bit-zero : (j : ℕ) → bit 0 j ≡ 0
bit-zero j = rw (zero-div (2 ^ j)) refl

max-bit_zero : (x j : ℕ) → bit x j ≡ max (bit 0 j) (bit x j)
max-bit_zero x j = rw (bit-zero j) (omega arith)

or_digits-bit : (n a b j : ℕ) → a ≤ n → bit (digits (λ b. b) max n a b) j ≡ max (bit a j) (bit b j)
or_digits-bit zero zero b j h = max-bit_zero b j
or_digits-bit zero (suc a) b j h = absurd (omega arith)
or_digits-bit (suc n) zero b j h = max-bit_zero b j
or_digits-bit (suc n) (suc a) b zero h = omega arith
or_digits-bit (suc n) (suc a) b (suc j) h =
    let half : (digits (λ b. b) max n (suc a / 2) (b / 2) * 2 + max (suc a % 2) (b % 2)) / 2
        ≡ digits (λ b. b) max n (suc a / 2) (b / 2) =
      omega arith in
    rw (bit-suc _ j, half, bit-suc (suc a) j, bit-suc b j)
      (or_digits-bit n (suc a / 2) (b / 2) j (omega arith))

-- A bit of `x | y` is set where one of the two has it.
pub bit-bit_or : (x y j : ℕ) → bit (bit_or x y) j ≡ max (bit x j) (bit y j)
bit-bit_or x y j = rw (bit_or-bitwise x y) (or_digits-bit x x y j (le_refl _))

-- `1 << k` has the bit `k` only.
pub bit-pow : (k j : ℕ) → bit (2 ^ k) j ≡ (if k == j then 1 else 0)
bit-pow zero zero = refl
bit-pow zero (suc j) =
    let half : 2 ^ 0 / 2 ≡ 0 = omega arith in
    rw (bit-suc (2 ^ 0) j, half, bit-zero j) (ground arith)
bit-pow (suc k) zero = ground (arith, pow-suc 2 k)
bit-pow (suc k) (suc j) =
    let half : 2 ^ suc k / 2 ≡ 2 ^ k = omega (arith, pow-suc 2 k) in
    rw (bit-suc (2 ^ suc k) j, half, bit-pow k j) (ground arith)
