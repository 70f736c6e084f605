-- ===== src/Common/Masks.antt =====
-- The masks that the encodings use, each as a remainder.
use Prim.Native.Nat.{ℕ, suc, ◌-◌, ◌*◌, ◌/◌, ◌%◌, ◌^◌, ◌<◌, ◌≤◌, bit_and}
use mathlib.Core.Path.{◌≡◌, ◌∙◌, ap}
use native.Mathlib.Nat.{mod-eq_of_lt, one-le-pow, pow-le-pow_right, pow-suc}
use native.Mathlib.Omega.{arith}
use air_tree.Common.Words.{shl}
use air_tree.Common.Bits.{bit_and_mask, bit_and_span}

pub bit_and_low1 : (x : ℕ) → bit_and x 0x1 ≡ x % 2 ^ 1
bit_and_low1 x = bit_and_mask 1 x

pub bit_and_low2 : (x : ℕ) → bit_and x 0x3 ≡ x % 2 ^ 2
bit_and_low2 x = bit_and_mask 2 x

pub bit_and_low3 : (x : ℕ) → bit_and x 0x7 ≡ x % 2 ^ 3
bit_and_low3 x = bit_and_mask 3 x

pub bit_and_low4 : (x : ℕ) → bit_and x 0xF ≡ x % 2 ^ 4
bit_and_low4 x = bit_and_mask 4 x

pub bit_and_low5 : (x : ℕ) → bit_and x 0x1F ≡ x % 2 ^ 5
bit_and_low5 x = bit_and_mask 5 x

pub bit_and_low6 : (x : ℕ) → bit_and x 0x3F ≡ x % 2 ^ 6
bit_and_low6 x = bit_and_mask 6 x

pub bit_and_low7 : (x : ℕ) → bit_and x 0x7F ≡ x % 2 ^ 7
bit_and_low7 x = bit_and_mask 7 x

pub bit_and_low8 : (x : ℕ) → bit_and x 0xFF ≡ x % 2 ^ 8
bit_and_low8 x = bit_and_mask 8 x

pub bit_and_low10 : (x : ℕ) → bit_and x 0x3FF ≡ x % 2 ^ 10
bit_and_low10 x = bit_and_mask 10 x

pub bit_and_low11 : (x : ℕ) → bit_and x 0x7FF ≡ x % 2 ^ 11
bit_and_low11 x = bit_and_mask 11 x

pub bit_and_low14 : (x : ℕ) → bit_and x 0x3FFF ≡ x % 2 ^ 14
bit_and_low14 x = bit_and_mask 14 x

pub bit_and_low23 : (x : ℕ) → bit_and x 0x7FFFFF ≡ x % 2 ^ 23
bit_and_low23 x = bit_and_mask 23 x

pub bit_and_low52 : (x : ℕ) → bit_and x 0xFFFFFFFFFFFFF ≡ x % 2 ^ 52
bit_and_low52 x = bit_and_mask 52 x

pub bit_and_low31 : (x : ℕ) → bit_and x (2 ^ 31 - 1) ≡ x % 2 ^ 31
bit_and_low31 x = bit_and_mask 31 x

pub bit_and_low63 : (x : ℕ) → bit_and x (2 ^ 63 - 1) ≡ x % 2 ^ 63
bit_and_low63 x = bit_and_mask 63 x

-- The exponent fields of a `float` and of a `double`.
pub bit_and_exponent32 : (x : ℕ) → bit_and x (0xFF * 2 ^ 23) ≡ x / 2 ^ 23 % 2 ^ 8 * 2 ^ 23
bit_and_exponent32 x = bit_and_span 8 23 x

pub bit_and_exponent64 : (x : ℕ) → bit_and x (0x7FF * 2 ^ 52) ≡ x / 2 ^ 52 % 2 ^ 11 * 2 ^ 52
bit_and_exponent64 x = bit_and_span 11 52 x

pub ruleset masks = (
  bit_and_low1, bit_and_low2, bit_and_low3, bit_and_low4, bit_and_low5, bit_and_low6, bit_and_low7,
  bit_and_low8, bit_and_low10, bit_and_low11, bit_and_low14, bit_and_low23, bit_and_low52,
  bit_and_low31, bit_and_low63, bit_and_exponent32, bit_and_exponent64,
)

pub shl_one : (k : ℕ) → k < 64 → shl 64 1 k ≡ 2 ^ k
shl_one k h =
    let one : 1 * 2 ^ k ≡ 2 ^ k = omega arith in
    let below : 2 ^ suc k ≤ 2 ^ 64 = pow-le-pow_right (omega arith) h in
    let pos : 1 ≤ 2 ^ k = one-le-pow k 2 (omega arith) in
    rw one (mod-eq_of_lt (omega (arith, pow-suc 2 k)))

-- `x & ((1 << k) - 1)`.
pub bit_and_low : (k x : ℕ) → k < 64 → bit_and x (shl 64 1 k - 1) ≡ x % 2 ^ k
bit_and_low k x h = ap (λ (t : ℕ). bit_and x (t - 1)) (shl_one k h) ∙ bit_and_mask k x
