-- ===== src/Encoding/Bins.antt =====
-- The bin of a masked number: its leading zeros and precision bits name one interval of masked
-- numbers, and every number of the interval has them.
use air_tree.Common.{
  true, false, ◌&&◌, ℕ, zero, suc, ◌+◌, ◌-◌, ◌*◌, ◌/◌, ◌%◌, ◌^◌, ◌≤◌, ◌<◌, ◌≡◌, ◌∙◌, ◌↔◌, refl, sym,
  ap, arith, ltb, leb, ◌==◌, if◌then◌else◌, wrap_sub, bit_and_mask, pow_add, Bool-cases, inl, inr,
}
use native.Mathlib.Nat.{
  div-lt_iff_lt-mul, pow-suc, one-le-pow, mod-eq_of_lt, suc-mul, mul-le-mul_right, div-eq_of_lt,
  div-eq_of_lt-le, mod-lt, div-add-mod', pow-le-pow_right, le_trans,
}
use air_tree.Encoding.{clz, first_one64, first_one32, zero_precision}

quotient_lem : (q t p : ℕ) → p < t → (q * t + p) / t ≡ q
quotient_lem q t p h = div-eq_of_lt-le _ (omega arith) (omega arith)

-- A word of `k` bits with its first one at bit `n`.
clz_lem : (k n x : ℕ) → 2 ^ n ≤ x → x < 2 ^ suc n → n < k → clz k x + suc n ≡ k
unfolding clz
clz_lem zero n x low high lt = absurd (omega arith)
clz_lem (suc k) n x low high lt = elim (Bool-cases (ltb n k)) [
  | inl below ↦
      let within : 2 ^ suc n ≤ 2 ^ k = pow-le-pow_right (omega arith) (ground arith) in
      let quotient : x / 2 ^ k ≡ 0 = div-eq_of_lt (le_trans high within) in
      rw quotient (omega (arith, clz_lem k n x low high (ground arith)))
  | inr above ↦
      let same : n ≡ k = ground arith in
      let quotient : x / 2 ^ k ≡ 1 =
        div-eq_of_lt-le _ (rw (← same) (omega arith)) (rw (← same) (omega (arith, pow-suc 2 n))) in
      rw quotient (omega arith)
]

-- The first one of a number, as the encoders find it.
abbrev pub IsFirst : ℕ → ℕ → ℕ → Type 0
IsFirst top first m = (n : ℕ) → n ≤ top → 2 ^ n ≤ m → m < 2 ^ suc n → first ≡ n

pub first_one64-is_top : (m n : ℕ) → n < 64 → 2 ^ n ≤ m → m < 2 ^ suc n → first_one64 m ≡ n
unfolding first_one64
first_one64-is_top m n lt low high = omega (arith, clz_lem 64 n m low high lt)

pub first_one64-IsFirst : (m : ℕ) → IsFirst 61 (first_one64 m) m
unfolding first_one64
first_one64-IsFirst m n le low high = omega (arith, clz_lem 64 n m low high (omega arith))

pub first_one32-IsFirst : (m : ℕ) → IsFirst 29 (first_one32 m) m
unfolding first_one32
first_one32-IsFirst m n le low high = omega (arith, clz_lem 32 n m low high (omega arith))

-- Every number but 0 has a first one.
first_bit : (k x : ℕ) → 0 < x → x < 2 ^ k → (n : ℕ) × (n < k) × (2 ^ n ≤ x) × (x < 2 ^ suc n)
first_bit zero x pos lt = absurd (omega arith)
first_bit (suc k) x pos lt = elim (Bool-cases (ltb x (2 ^ k))) [
  | inl below ↦ let rest = first_bit k x pos (ground arith) in (rest.0, omega arith, rest.2, rest.3)
  | inr above ↦ (k, omega arith, ground arith, lt)
]

-- The numbers with `z` leading zeros and precision bits `P`: those that begin with the bits of
-- `stream`, which has the leading one unless the zeros are capped.
abbrev pub shift_of : ℕ → ℕ → ℕ → ℕ
shift_of top p z = if z == 15 then top - 14 - p else top - z - p

abbrev pub stream_of : ℕ → ℕ → ℕ → ℕ
stream_of p z P = if z == 15 then P else 2 ^ p + P

pub record InBin (top p z P m : ℕ) : Type 0 where
  pub zeros : z ≤ 15
  pub precision : P < 2 ^ p
  pub low : stream_of p z P * 2 ^ shift_of top p z ≤ m
  pub high : m < (stream_of p z P + 1) * 2 ^ shift_of top p z

scale : (top p z : ℕ) → p + z ≤ top → 2 ^ (top - z) ≡ 2 ^ p * 2 ^ (top - z - p)
scale top p z room =
    let e : top - z ≡ p + (top - z - p) = omega arith in
    ap (λ (t : ℕ). 2 ^ t) e ∙ pow_add p (top - z - p)

rest_lem : (t r : ℕ) → r < t → (t + r) % t ≡ r
rest_lem t r h = grind arith

quotient_ge : (q k m : ℕ) → 0 < k → q * k ≤ m → q ≤ m / k
quotient_ge q k m pos h = elim (Bool-cases (ltb (m / k) q)) [
  | inl less ↦
      absurd (omega (arith, (div-lt_iff_lt-mul {k = k} {x = m} {y = q} pos).0 (ground arith)))
  | inr enough ↦ ground arith
]

-- A number of `2 ^ k` or more has its first one at bit `k` or above.
first_bit_ge : (k n m : ℕ) → 2 ^ k ≤ m → m < 2 ^ suc n → k ≤ n
first_bit_ge k n m low high = elim (Bool-cases (leb k n)) [
  | inl le ↦ ground arith
  | inr gt ↦
      let far : 2 ^ suc n ≤ 2 ^ k = pow-le-pow_right (omega arith) (ground arith) in
      absurd (omega arith)
]

-- Every number below `2 ^ (top + 1)` lies in a bin.
module _ (top p m : ℕ) (room : p + 14 ≤ top) where
  capped_bin : m < 2 ^ (top - 14) → InBin top p 15 (m / 2 ^ (top - 14 - p)) m
  capped_bin below =
      let pos : 0 < 2 ^ (top - 14 - p) = one-le-pow (top - 14 - p) 2 (omega arith) in
      record {
        zeros = omega arith;
        precision = (div-lt_iff_lt-mul pos).1 (omega (arith, scale top p 14 (omega arith)));
        low = omega (arith, div-add-mod' m (2 ^ (top - 14 - p)));
        high = omega (arith, div-add-mod' m (2 ^ (top - 14 - p)), mod-lt m pos);
      }

  uncapped_bin :
      (z : ℕ)
      → z < 15
      → 2 ^ (top - z) ≤ m
      → m < 2 ^ suc (top - z)
      → InBin top p z (m / 2 ^ (top - z - p) - 2 ^ p) m
  uncapped_bin z lt low high =
      let pos : 0 < 2 ^ (top - z - p) = one-le-pow (top - z - p) 2 (omega arith) in
      let split : 2 ^ (top - z) ≡ 2 ^ p * 2 ^ (top - z - p) = scale top p z (omega arith) in
      let at_least : 2 ^ p ≤ m / 2 ^ (top - z - p) = quotient_ge (2 ^ p) _ m pos (omega arith) in
      let below : m / 2 ^ (top - z - p) < 2 ^ p + 2 ^ p =
        (div-lt_iff_lt-mul pos).1 (omega (arith, pow-suc 2 (top - z))) in
      let stream : 2 ^ p + (m / 2 ^ (top - z - p) - 2 ^ p) ≡ m / 2 ^ (top - z - p) = omega arith in
      let not_capped : (z == 15) ≡ false = ground arith in
      record {
        zeros = omega arith;
        precision = omega arith;
        low = rw (not_capped, stream) (omega (arith, div-add-mod' m (2 ^ (top - z - p))));
        high =
            rw (not_capped, stream)
              (omega (arith, div-add-mod' m (2 ^ (top - z - p)), mod-lt m pos));
      }

  bin_exists : m < 2 ^ suc top → (z : ℕ) × (P : ℕ) × InBin top p z P m
  bin_exists small = elim (Bool-cases (ltb m (2 ^ (top - 14)))) [
    | inl capped ↦ (15, _, capped_bin (ground arith))
    | inr uncapped ↦
        let pos : 1 ≤ 2 ^ (top - 14) = one-le-pow (top - 14) 2 (omega arith) in
        let bit = first_bit (suc top) m (ground arith) small in
        let long : top - 14 ≤ bit.0 =
          ground (arith, first_bit_ge (top - 14) bit.0 m (ground arith) bit.3) in
        let e : top - (top - bit.0) ≡ bit.0 = omega (arith, bit.1) in
        (top - bit.0, _, uncapped_bin (top - bit.0) (omega arith) (rw e bit.2) (rw e bit.3))
  ]

module _ (top p first m : ℕ) (room : p + 14 ≤ top) (small : top < 2 ^ 31)
    (is_first : IsFirst top first m) where
  uncapped_code :
      (z P : ℕ)
      → z < 15
      → P < 2 ^ p
      → (2 ^ p + P) * 2 ^ (top - z - p) ≤ m
      → m < (2 ^ p + P + 1) * 2 ^ (top - z - p)
      → zero_precision top p (top - 14 - p) first m ≡ (z, P)
  unfolding zero_precision
  uncapped_code z P lt fits low high =
      let split : 2 ^ (top - z) ≡ 2 ^ p * 2 ^ (top - z - p) = scale top p z (omega arith) in
      let one : 1 ≤ 2 ^ (top - z) = one-le-pow (top - z) 2 (omega arith) in
      let bound : (P + 1) * 2 ^ (top - z - p) ≤ 2 ^ p * 2 ^ (top - z - p) =
        mul-le-mul_right (2 ^ (top - z - p)) (omega arith) in
      let at : first ≡ top - z =
        is_first (top - z) (omega arith) (omega arith) (omega (arith, pow-suc 2 (top - z))) in
      let raw : wrap_sub 32 top first ≡ z = omega arith in
      let shift : first - p ≡ top - z - p = omega arith in
      let quotient : m / 2 ^ (top - z - p) ≡ 2 ^ p + P = div-eq_of_lt-le _ low high in
      let some_bit : (m == 0) ≡ false = ground arith in
      let uncapped : leb 15 z ≡ false = ground arith in
      rw
        (
          some_bit,
          raw,
          uncapped,
          shift,
          quotient,
          bit_and_mask p (2 ^ p + P),
          rest_lem (2 ^ p) P fits,
        )
        refl

  capped_zero : (P : ℕ) → P * 2 ^ (top - 14 - p) ≤ 0 → P ≡ 0
  capped_zero zero low = refl
  capped_zero (suc P) low =
      absurd
        (omega (arith, one-le-pow (top - 14 - p) 2 (omega arith), suc-mul P (2 ^ (top - 14 - p))))

  capped_code :
      (P : ℕ)
      → P < 2 ^ p
      → P * 2 ^ (top - 14 - p) ≤ m
      → m < (P + 1) * 2 ^ (top - 14 - p)
      → zero_precision top p (top - 14 - p) first m ≡ (15, P)
  unfolding zero_precision
  capped_code P fits low high = elim (Bool-cases (m == 0)) [
    | inl empty ↦
        let none : P ≡ 0 = capped_zero P (ground arith) in
        rw empty (ap (λ (t : ℕ). (15, t)) (sym none))
    | inr some_bit ↦
        let split : 2 ^ (top - 14) ≡ 2 ^ p * 2 ^ (top - 14 - p) = scale top p 14 (omega arith) in
        let bound : (P + 1) * 2 ^ (top - 14 - p) ≤ 2 ^ p * 2 ^ (top - 14 - p) =
          mul-le-mul_right (2 ^ (top - 14 - p)) (omega arith) in
        let bit = first_bit (top - 14) m (ground arith) (omega arith) in
        let at : first ≡ bit.0 = is_first bit.0 (omega arith) bit.2 bit.3 in
        let raw : wrap_sub 32 top first ≡ top - bit.0 = omega arith in
        let capped : (leb 15 (top - bit.0) && ltb (top - bit.0) (2 ^ 31)) ≡ true = ground arith in
        let quotient : m / 2 ^ (top - 14 - p) ≡ P = div-eq_of_lt-le _ low high in
        rw (some_bit, raw, capped, quotient, bit_and_mask p P, mod-eq_of_lt fits) refl
  ]

  pub zero_precision-InBin :
      {z P : ℕ} → InBin top p z P m → zero_precision top p (top - 14 - p) first m ≡ (z, P)
  zero_precision-InBin {z} {P} bin = elim (Bool-cases (z == 15)) [
    | inl capped ↦
        let low : P * 2 ^ (top - 14 - p) ≤ m = rw capped at bin.low in
        let high : m < (P + 1) * 2 ^ (top - 14 - p) = rw capped at bin.high in
        let same : 15 ≡ z = ground arith in
        capped_code P bin.precision low high ∙ ap (λ (t : ℕ). (t, P)) same
    | inr uncapped ↦
        let low : (2 ^ p + P) * 2 ^ (top - z - p) ≤ m = rw uncapped at bin.low in
        let high : m < (2 ^ p + P + 1) * 2 ^ (top - z - p) = rw uncapped at bin.high in
        uncapped_code z P (ground (arith, bin.zeros)) bin.precision low high
  ]

  -- What the encoder computes is the bin of its argument.
  pub InBin-zero_precision :
      m < 2 ^ suc top
      → InBin top p
          (zero_precision top p (top - 14 - p) first m).0
          (zero_precision top p (top - 14 - p) first m).1
          m
  InBin-zero_precision small =
      let bin = bin_exists top p m room small in rw (zero_precision-InBin bin.2) bin.2

  -- The zeros and precision bits that the encoder takes from a masked number are `z` and `P` exactly
  -- if the number lies in the bin of `z` and `P`.
  pub zero_precision_iff :
      (z P : ℕ)
      → m < 2 ^ suc top
      → InBin top p z P m ↔ (zero_precision top p (top - 14 - p) first m ≡ (z, P))
  zero_precision_iff z P small =
      (zero_precision-InBin, λ e. let bin = InBin-zero_precision small in rw e at bin)
