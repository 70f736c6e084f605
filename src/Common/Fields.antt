-- ===== src/Common/Fields.antt =====
-- Bit fields put together by a row of statements `result |= (value << shift)`, from the highest
-- field down.
use Prim.Native.Nat.{ℕ, zero, suc, ◌+◌, ◌-◌, ◌*◌, ◌^◌, ◌≤◌, ◌<◌, bit_or}
use mathlib.Core.Path.{◌≡◌, ap, ◌∙◌, sym}
use mathlib.Core.List.{List, [], ◌∷◌}
use native.Mathlib.Nat.{
  add-zero, pow-suc, mod-eq_of_lt, le_trans, pow-le-pow_right, mul-le-mul_right,
}
use native.Mathlib.Omega.{arith}
use air_tree.Common.Words.{shl}
use air_tree.Common.Bits.{bit_or_shifted, bit_or_below}

-- The row of statements on an unsigned type of `w` bits. A field is its value and shift.
unfoldable pub or_fields : ℕ → ℕ → List (ℕ × ℕ) → ℕ
or_fields w result [] = result
or_fields w result ((v, k) ∷ fields) = or_fields w (bit_or result (shl w v k)) fields

-- The number that disjoint fields make up.
abbrev pub total : List (ℕ × ℕ) → ℕ
total [] = 0
total ((v, k) ∷ fields) = v * 2 ^ k + total fields

-- Each field lies below bit `top`, and the later ones below its own shift.
abbrev pub Fit : ℕ → List (ℕ × ℕ) → Type 0
Fit top [] = Unit {0}
Fit top ((v, k) ∷ fields) = (k ≤ top) × (v * 2 ^ k < 2 ^ top) × Fit k fields

pub pow_add : (a b : ℕ) → 2 ^ (a + b) ≡ 2 ^ a * 2 ^ b
pow_add a zero = rw add-zero (omega arith)
pow_add a (suc b) =
    let e : a + suc b ≡ suc (a + b) = omega arith in
    ap (λ (t : ℕ). 2 ^ t) e
    ∙ omega (arith, pow-suc 2 (a + b), ap (λ (t : ℕ). 2 ^ a * t) (pow-suc 2 b), pow_add a b)

pow_le : (a b : ℕ) → a ≤ b → 2 ^ b ≡ 2 ^ (b - a) * 2 ^ a
pow_le a b h = let e : b ≡ (b - a) + a = omega arith in ap (λ (t : ℕ). 2 ^ t) e ∙ pow_add (b - a) a

or_fields_step :
    (q top v k : ℕ)
    → k ≤ top
    → v * 2 ^ k < 2 ^ top
    → bit_or (q * 2 ^ top) (v * 2 ^ k) ≡ (q * 2 ^ (top - k) + v) * 2 ^ k
or_fields_step q top v k le fits =
    bit_or_shifted top q (v * 2 ^ k) fits ∙ rw (pow_le k top le) (omega arith)

shl_fits : (w top v k : ℕ) → top ≤ w → v * 2 ^ k < 2 ^ top → shl w v k ≡ v * 2 ^ k
shl_fits w top v k le fits = mod-eq_of_lt (le_trans fits (pow-le-pow_right (omega arith) le))

-- Fields that fit add up.
pub or_fields-total :
    (w q top : ℕ) (fields : List (ℕ × ℕ))
    → top ≤ w
    → Fit top fields
    → or_fields w (q * 2 ^ top) fields ≡ q * 2 ^ top + total fields
unfolding or_fields
or_fields-total w q top [] le fit = omega arith
or_fields-total w q top ((v, k) ∷ fields) le fit =
    rw (shl_fits w top v k le fit.1, or_fields_step q top v k fit.0 fit.1)
      (omega (
        arith,
        or_fields-total w (q * 2 ^ (top - k) + v) k fields (omega arith) fit.2,
        or_fields_step q top v k fit.0 fit.1,
        bit_or_shifted top q (v * 2 ^ k) fit.1,
      ))

pub or_fields-sum :
    (w top : ℕ) (fields : List (ℕ × ℕ))
    → top ≤ w
    → Fit top fields
    → or_fields w 0 fields ≡ total fields
or_fields-sum w top fields le fit =
    let start : 0 * 2 ^ top ≡ 0 = omega arith in
    let start_add : 0 * 2 ^ top + total fields ≡ total fields = omega arith in
    ap (λ (t : ℕ). or_fields w t fields) (sym start)
    ∙ or_fields-total w 0 top fields le fit
    ∙ start_add

-- `(high << k) | low`.
pub bit_or_pair :
    (w k high low : ℕ)
    → high * 2 ^ k < 2 ^ w
    → low < 2 ^ k
    → bit_or (shl w high k) low ≡ high * 2 ^ k + low
bit_or_pair w k high low fits below = rw (mod-eq_of_lt fits) (bit_or_shifted k high low below)

-- `low | (v << n)` on 64 bits, where `low` has `n` bits and `v` has `k`.
pub join_bits :
    (n k low v : ℕ)
    → low < 2 ^ n
    → v < 2 ^ k
    → n + k ≤ 64
    → (bit_or low (shl 64 v n) ≡ low + 2 ^ n * v) × (low + 2 ^ n * v < 2 ^ (n + k))
join_bits n k low v below fits room =
    let whole : 2 ^ (n + k) ≤ 2 ^ 64 = pow-le-pow_right (omega arith) room in
    let most : (v + 1) * 2 ^ n ≤ 2 ^ k * 2 ^ n = mul-le-mul_right (2 ^ n) (omega arith) in
    let inside : low + 2 ^ n * v < 2 ^ (n + k) = omega (arith, pow_add n k) in
    let small : v * 2 ^ n < 2 ^ 64 = omega arith in
    (rw (mod-eq_of_lt small) (omega (arith, bit_or_below n v low below)), inside)
