-- ===== src/Common/LowBit.antt =====
-- `m & (m - 1)` takes the lowest one off `m`.
use Prim.Native.Nat.{ℕ, zero, suc, ◌+◌, ◌-◌, ◌*◌, ◌/◌, ◌%◌, ◌≤◌, ◌<◌, min}
use Prim.Native.Nat.{bit_and, digits, bit_and-bitwise}
use mathlib.Core.Path.{◌≡◌, refl, ◌∙◌, ap}
use native.Mathlib.Nat.{le_refl}
use native.Mathlib.Omega.{arith}

-- Fuel past the number changes nothing.
and_digits-fuel :
    (n m a b : ℕ) → a ≤ n → a ≤ m → digits (λ b. 0) min n a b ≡ digits (λ b. 0) min m a b
and_digits-fuel zero zero zero b h h' = refl
and_digits-fuel zero (suc m) zero b h h' = refl
and_digits-fuel (suc n) zero zero b h h' = refl
and_digits-fuel (suc n) (suc m) zero b h h' = refl
and_digits-fuel zero m (suc a) b h h' = absurd (omega arith)
and_digits-fuel (suc n) zero (suc a) b h h' = absurd (omega arith)
and_digits-fuel (suc n) (suc m) (suc a) b h h' =
    ap (λ (t : ℕ). t * 2 + min (suc a % 2) (b % 2))
      (and_digits-fuel n m (suc a / 2) (b / 2) (omega arith) (omega arith))

and_digits-same : (n a : ℕ) → a ≤ n → digits (λ b. 0) min n a a ≡ a
and_digits-same zero zero h = refl
and_digits-same zero (suc a) h = absurd (omega arith)
and_digits-same (suc n) zero h = refl
and_digits-same (suc n) (suc a) h = omega (arith, and_digits-same n (suc a / 2) (omega arith))

pub low_bit_odd : (q : ℕ) → bit_and (2 * q + 1) (2 * q + 1 - 1) ≡ 2 * q
low_bit_odd q =
    let one : 2 * q + 1 ≡ suc (2 * q) = omega arith in
    let less : suc (2 * q) - 1 ≡ 2 * q = omega arith in
    let half : suc (2 * q) / 2 ≡ q = omega arith in
    let half' : 2 * q / 2 ≡ q = omega arith in
    let low : min (suc (2 * q) % 2) (2 * q % 2) ≡ 0 = omega arith in
    rw (one, less)
      (bit_and-bitwise (suc (2 * q)) (2 * q)
        ∙ rw (half, half', low) (omega (arith, and_digits-same (2 * q) q (omega arith))))

pub low_bit_even : (q : ℕ) → 0 < q → bit_and (2 * q) (2 * q - 1) ≡ 2 * bit_and q (q - 1)
low_bit_even zero h = absurd (omega arith)
low_bit_even (suc q) h =
    let n = 2 * q + 1 in
    let one : 2 * suc q ≡ suc n = omega arith in
    let less : suc n - 1 ≡ n = omega arith in
    let half : suc n / 2 ≡ suc q = omega arith in
    let half' : n / 2 ≡ suc q - 1 = omega arith in
    let low : min (suc n % 2) (n % 2) ≡ 0 = omega arith in
    rw (one, less)
      (bit_and-bitwise (suc n) n
        ∙ rw (half, half', low)
            (omega (
              arith,
              and_digits-fuel n (suc q) (suc q) (suc q - 1) (omega arith) (le_refl _),
              bit_and-bitwise (suc q) (suc q - 1),
            )))

and_digits-le : (n a b : ℕ) → digits (λ b. 0) min n a b ≤ a
and_digits-le zero zero b = le_refl _
and_digits-le zero (suc a) b = omega arith
and_digits-le (suc n) zero b = le_refl _
and_digits-le (suc n) (suc a) b = omega (arith, and_digits-le n (suc a / 2) (b / 2))

pub bit_and-le : (x y : ℕ) → bit_and x y ≤ x
bit_and-le x y = rw (bit_and-bitwise x y) (and_digits-le x x y)
