-- ===== src/Common/Bits.antt =====
-- `&` with a mask of low ones and `|` of fields that do not overlap, as arithmetic. The proofs
-- go through the fuel recursion that the native operations stand for.
use Prim.Native.Nat.{ℕ, zero, suc, ◌+◌, ◌-◌, ◌*◌, ◌/◌, ◌%◌, ◌^◌, ◌≤◌, ◌<◌, min, max}
use Prim.Native.Nat.{
  bit_and, bit_or, digits, bit_and-bitwise, bit_or-bitwise, bit_xor, bit_xor-bitwise, differ,
}
use mathlib.Core.Path.{◌≡◌, refl, ap, ◌∙◌}
use native.Mathlib.Nat.{pow-suc, one-le-pow, le_refl, mod-lt, div-add-mod'}
use native.Mathlib.Omega.{arith}

double_shift : (q k : ℕ) → q * 2 ^ suc k ≡ q * 2 ^ k + q * 2 ^ k
double_shift q k = omega (arith, ap (λ (t : ℕ). q * t) (pow-suc 2 k))

or_digits_disjoint :
    (n k q r x : ℕ) → x ≤ n → x ≡ q * 2 ^ k → r < 2 ^ k → digits (λ b. b) max n x r ≡ x + r
or_digits_disjoint zero k q r zero le e fits = omega arith
or_digits_disjoint zero k q r (suc x) le e fits = absurd (omega arith)
or_digits_disjoint (suc n) k q r zero le e fits = omega arith
or_digits_disjoint (suc n) zero q r (suc x) le e fits = omega (
  arith,
  or_digits_disjoint n 0 (suc x / 2) (r / 2) (suc x / 2) (omega arith) (omega arith) (omega arith),
)
or_digits_disjoint (suc n) (suc k) q r (suc x) le e fits = omega (
  arith,
  double_shift q k,
  or_digits_disjoint n k q (r / 2) (suc x / 2) (omega arith) (omega (arith, double_shift q k))
      (omega (arith, pow-suc 2 k)),
)

or_digits_below :
    (n k q r : ℕ) → r ≤ n → r < 2 ^ k → digits (λ b. b) max n r (q * 2 ^ k) ≡ q * 2 ^ k + r
or_digits_below zero k q zero le fits = omega arith
or_digits_below zero k q (suc r) le fits = absurd (omega arith)
or_digits_below (suc n) k q zero le fits = omega arith
or_digits_below (suc n) zero q (suc r) le fits = absurd (omega arith)
or_digits_below (suc n) (suc k) q (suc r) le fits =
    let half : q * 2 ^ suc k / 2 ≡ q * 2 ^ k = omega (arith, double_shift q k) in
    let even : q * 2 ^ suc k % 2 ≡ 0 = omega (arith, double_shift q k) in
    rw (half, even)
      (omega (
        arith,
        double_shift q k,
        or_digits_below n k q (suc r / 2) (omega arith) (omega (arith, pow-suc 2 k)),
      ))

and_digits_low :
    (n k q r x : ℕ)
    → x ≤ n
    → x ≡ q * 2 ^ k + r
    → r < 2 ^ k
    → digits (λ b. 0) min n x (2 ^ k - 1) ≡ r
and_digits_low zero k q r zero le e fits = omega arith
and_digits_low zero k q r (suc x) le e fits = absurd (omega arith)
and_digits_low (suc n) k q r zero le e fits = omega arith
and_digits_low (suc n) zero q r (suc x) le e fits =
    omega (
      arith,
      and_digits_low n 0 (suc x / 2) 0 (suc x / 2) (omega arith) (omega arith) (omega arith),
    )
and_digits_low (suc n) (suc k) q r (suc x) le e fits =
    let pos : 1 ≤ 2 ^ k = one-le-pow k 2 (omega arith) in
    let half : (2 ^ suc k - 1) / 2 ≡ 2 ^ k - 1 = omega (arith, pow-suc 2 k) in
    rw half (
      omega (
        arith,
        double_shift q k,
        pow-suc 2 k,
        and_digits_low n k q (r / 2) (suc x / 2) (omega arith) (omega (arith, double_shift q k))
            (omega (arith, pow-suc 2 k)),
      ))

and_digits_span :
    (n j k q r s x : ℕ)
    → x ≤ n
    → x ≡ (q * 2 ^ j + r) * 2 ^ k + s
    → r < 2 ^ j
    → s < 2 ^ k
    → digits (λ b. 0) min n x ((2 ^ j - 1) * 2 ^ k) ≡ r * 2 ^ k
and_digits_span n j zero q r s x le e fits low =
    let mask : (2 ^ j - 1) * 2 ^ 0 ≡ 2 ^ j - 1 = omega arith in
    rw mask (omega (arith, and_digits_low n j q r x le (omega arith) fits))
and_digits_span zero j (suc k) q r s zero le e fits low = omega arith
and_digits_span zero j (suc k) q r s (suc x) le e fits low = absurd (omega arith)
and_digits_span (suc n) j (suc k) q r s zero le e fits low = omega arith
and_digits_span (suc n) j (suc k) q r s (suc x) le e fits low =
    let half : (2 ^ j - 1) * 2 ^ suc k / 2 ≡ (2 ^ j - 1) * 2 ^ k =
      omega (arith, double_shift (2 ^ j - 1) k) in
    let even : (2 ^ j - 1) * 2 ^ suc k % 2 ≡ 0 = omega (arith, double_shift (2 ^ j - 1) k) in
    rw (half, even)
      (omega (
        arith,
        double_shift (q * 2 ^ j + r) k,
        double_shift r k,
        and_digits_span n j k q r (s / 2) (suc x / 2) (omega arith)
            (omega (arith, double_shift (q * 2 ^ j + r) k)) fits (omega (arith, pow-suc 2 k)),
      ))

differ_one : (a b : ℕ) → a < 2 → b ≡ 1 → differ a b ≡ 1 - a
differ_one zero b lt e = rw e
differ_one (suc zero) b lt e = rw e
differ_one (suc (suc a)) b lt e = absurd (omega arith)

xor_digits_ones :
    (n k x : ℕ) → x ≤ n → x < 2 ^ k → digits (λ b. b) differ n x (2 ^ k - 1) ≡ 2 ^ k - 1 - x
xor_digits_ones zero k zero le fits = omega arith
xor_digits_ones zero k (suc x) le fits = absurd (omega arith)
xor_digits_ones (suc n) k zero le fits = omega arith
xor_digits_ones (suc n) zero (suc x) le fits = absurd (omega arith)
xor_digits_ones (suc n) (suc k) (suc x) le fits =
    let pos : 1 ≤ 2 ^ k = one-le-pow k 2 (omega arith) in
    let half : (2 ^ suc k - 1) / 2 ≡ 2 ^ k - 1 = omega (arith, pow-suc 2 k) in
    rw half (
      omega (
        arith,
        pow-suc 2 k,
        differ_one (suc x % 2) ((2 ^ suc k - 1) % 2) (omega arith) (omega (arith, pow-suc 2 k)),
        xor_digits_ones n k (suc x / 2) (omega arith) (omega (arith, pow-suc 2 k)),
      ))

-- `x | r` adds, where `x` has `k` low zeros and `r` fits below them.
pub bit_or_shifted : (k q r : ℕ) → r < 2 ^ k → bit_or (q * 2 ^ k) r ≡ q * 2 ^ k + r
bit_or_shifted k q r fits =
    bit_or-bitwise (q * 2 ^ k) r ∙ or_digits_disjoint (q * 2 ^ k) k q r _ (le_refl _) refl fits

pub bit_or_below : (k q r : ℕ) → r < 2 ^ k → bit_or r (q * 2 ^ k) ≡ q * 2 ^ k + r
bit_or_below k q r fits = bit_or-bitwise r (q * 2 ^ k) ∙ or_digits_below r k q r (le_refl _) fits

-- A mask of `k` low ones takes the remainder by `2 ^ k`.
pub bit_and_mask : (k x : ℕ) → bit_and x (2 ^ k - 1) ≡ x % 2 ^ k
bit_and_mask k x =
    bit_and-bitwise x (2 ^ k - 1)
    ∙ and_digits_low x k (x / 2 ^ k) (x % 2 ^ k) x (le_refl _)
        (omega (arith, div-add-mod' x (2 ^ k))) (mod-lt x (one-le-pow k 2 (omega arith)))

-- A mask of `j` ones over `k` zeros keeps the bits from `k` to `j + k`.
pub bit_and_span : (j k x : ℕ) → bit_and x ((2 ^ j - 1) * 2 ^ k) ≡ x / 2 ^ k % 2 ^ j * 2 ^ k
bit_and_span j k x =
    bit_and-bitwise x ((2 ^ j - 1) * 2 ^ k)
    ∙ and_digits_span x j k (x / 2 ^ k / 2 ^ j) (x / 2 ^ k % 2 ^ j) (x % 2 ^ k) x (le_refl _)
        (omega (
          arith,
          div-add-mod' x (2 ^ k),
          ap (λ (t : ℕ). t * 2 ^ k) (div-add-mod' (x / 2 ^ k) (2 ^ j)),
        ))
        (mod-lt (x / 2 ^ k) (one-le-pow j 2 (omega arith)))
        (mod-lt x (one-le-pow k 2 (omega arith)))

differ_zero : (a : ℕ) → a < 2 → differ a 0 ≡ a
differ_zero zero lt = refl
differ_zero (suc zero) lt = refl
differ_zero (suc (suc a)) lt = absurd (omega arith)

xor_digits_zero : (n x : ℕ) → x ≤ n → digits (λ b. b) differ n x 0 ≡ x
xor_digits_zero zero zero le = refl
xor_digits_zero zero (suc x) le = absurd (omega arith)
xor_digits_zero (suc n) zero le = refl
xor_digits_zero (suc n) (suc x) le =
    omega
      (arith, xor_digits_zero n (suc x / 2) (omega arith), differ_zero (suc x % 2) (omega arith))

pub bit_xor-zero : (x : ℕ) → bit_xor x 0 ≡ x
bit_xor-zero x = bit_xor-bitwise x 0 ∙ xor_digits_zero x x (le_refl _)

-- `^` with all ones is the complement.
pub bit_xor_ones : (k x : ℕ) → x < 2 ^ k → bit_xor x (2 ^ k - 1) ≡ 2 ^ k - 1 - x
bit_xor_ones k x fits = bit_xor-bitwise x (2 ^ k - 1) ∙ xor_digits_ones x k x (le_refl _) fits

differ-lt : (a b : ℕ) → a < 2 → b < 2 → differ a b < 2
differ-lt zero b lt lt' = lt'
differ-lt (suc zero) zero lt lt' = omega arith
differ-lt (suc zero) (suc zero) lt lt' = omega arith
differ-lt (suc zero) (suc (suc b)) lt lt' = absurd (omega arith)
differ-lt (suc (suc a)) b lt lt' = absurd (omega arith)

xor_digits-lt : (n k x y : ℕ) → x < 2 ^ k → y < 2 ^ k → digits (λ b. b) differ n x y < 2 ^ k
xor_digits-lt zero k x y fits fits' = fits'
xor_digits-lt (suc n) k zero y fits fits' = fits'
xor_digits-lt (suc n) zero (suc x) y fits fits' = absurd (omega arith)
xor_digits-lt (suc n) (suc k) (suc x) y fits fits' = omega (
  arith,
  pow-suc 2 k,
  differ-lt (suc x % 2) (y % 2) (omega arith) (omega arith),
  xor_digits-lt n k (suc x / 2) (y / 2) (omega (arith, pow-suc 2 k)) (omega (arith, pow-suc 2 k)),
)

pub bit_xor-lt : (k x y : ℕ) → x < 2 ^ k → y < 2 ^ k → bit_xor x y < 2 ^ k
bit_xor-lt k x y fits fits' = rw (bit_xor-bitwise x y) (xor_digits-lt x k x y fits fits')

or_digits-lt : (n k x y : ℕ) → x < 2 ^ k → y < 2 ^ k → digits (λ b. b) max n x y < 2 ^ k
or_digits-lt zero k x y fits fits' = fits'
or_digits-lt (suc n) k zero y fits fits' = fits'
or_digits-lt (suc n) zero (suc x) y fits fits' = absurd (omega arith)
or_digits-lt (suc n) (suc k) (suc x) y fits fits' = omega (
  arith,
  pow-suc 2 k,
  or_digits-lt n k (suc x / 2) (y / 2) (omega (arith, pow-suc 2 k)) (omega (arith, pow-suc 2 k)),
)

pub bit_or-lt : (k x y : ℕ) → x < 2 ^ k → y < 2 ^ k → bit_or x y < 2 ^ k
bit_or-lt k x y fits fits' = rw (bit_or-bitwise x y) (or_digits-lt x k x y fits fits')
