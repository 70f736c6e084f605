-- ===== src/Reconstruct/Edge.antt =====
-- The stream of a code is the lower edge of its bin, shifted into an exponent and a mantissa.
use air_tree.Common.{
  true, false, ℕ, suc, ◌+◌, ◌-◌, ◌*◌, ◌/◌, ◌%◌, ◌^◌, ◌≤◌, ◌<◌, bit_or, ◌≡◌, ◌∙◌, refl, sym, ap,
  arith, leb, ◌==◌, if◌then◌else◌, shl, pow_add, bit_and_mask, bit_or_shifted, Bool-cases, inl, inr,
}
use native.Mathlib.Nat.{
  one-le-pow, pow-suc, mod-eq_of_lt, mod-lt, div-add-mod', pow-le-pow_right, le_trans,
  mul-le-mul_right,
}
use air_tree.Encoding.Bins.{shift_of, stream_of}
use air_tree.Reconstruct.{IeeeLayout, spread, stream}

shl_one : (k : ℕ) → k < 64 → shl 64 1 k ≡ 2 ^ k
shl_one k lt =
    let below : 2 ^ suc k ≤ 2 ^ 64 = pow-le-pow_right (omega arith) lt in
    let one : 1 * 2 ^ k ≡ 2 ^ k = omega arith in
    rw one (mod-eq_of_lt (omega (arith, pow-suc 2 k, one-le-pow k 2 (omega arith))))

-- The lower edge of a bin.
abbrev pub edge : ℕ → ℕ → ℕ → ℕ → ℕ
edge top p z P = stream_of p z P * 2 ^ shift_of top p z

abbrev pub length_of : ℕ → ℕ → ℕ
length_of p z = if z == 15 then 16 + p else 2 + z + p

-- The stream, its length, and the room that it leaves in `top + 2` bits.
pub stream_lem :
    (p z P : ℕ)
    → p ≤ 14
    → z ≤ 15
    → P < 2 ^ p
    → (stream p z P ≡ (stream_of p z P, length_of p z)) × (stream_of p z P < 2 ^ length_of p z)
unfolding stream
stream_lem p z P hp hz hP = elim (Bool-cases (z == 15)) [
  | inl capped ↦
      let wide : 2 ^ p ≤ 2 ^ (16 + p) = pow-le-pow_right (omega arith) (omega arith) in
      let length : 1 + z + 0 + p ≡ 16 + p = ground arith in
      rw capped (ap (λ (t : ℕ). (P, t)) length, le_trans hP wide)
  | inr uncapped ↦
      let wide : 2 ^ suc p ≤ 2 ^ (2 + z + p) = pow-le-pow_right (omega arith) (omega arith) in
      let length : 1 + z + 1 + p ≡ 2 + z + p = omega arith in
      let one : 1 * 2 ^ p ≡ 2 ^ p = omega arith in
      let leading : bit_or (2 ^ p) P ≡ 2 ^ p + P =
        ap (λ (t : ℕ). bit_or t P) (sym one)
        ∙ bit_or_shifted p 1 P hP
        ∙ ap (λ (t : ℕ). t + P) one in
      rw uncapped (
        rw (shl_one p (omega arith), leading) (ap (λ (t : ℕ). (2 ^ p + P, t)) length),
        omega (arith, pow-suc 2 p),
      )
]

split_power : (m r : ℕ) → r ≤ m → 2 ^ m ≡ 2 ^ r * 2 ^ (m - r)
split_power m r le =
    let e : m ≡ r + (m - r) = omega arith in ap (λ (t : ℕ). 2 ^ t) e ∙ pow_add r (m - r)

no_low_bits : (x y : ℕ) → 0 ≡ x % 2 ^ 0 * y
no_low_bits x y = let none : x % 2 ^ 0 ≡ 0 = omega arith in rw none (omega arith)

-- A low part of `r` bits, moved up to the top of `m` bits.
moved_up_lt : (m r x : ℕ) → r ≤ m → x < 2 ^ r → x * 2 ^ (m - r) < 2 ^ m
moved_up_lt m r x le lt =
    let pos : 1 ≤ 2 ^ (m - r) = one-le-pow (m - r) 2 (omega arith) in
    let bound : (x + 1) * 2 ^ (m - r) ≤ 2 ^ r * 2 ^ (m - r) =
      mul-le-mul_right (2 ^ (m - r)) (omega arith) in
    omega (arith, split_power m r le)

shl64_fits : (k x : ℕ) → k ≤ 64 → (r : ℕ) → r ≤ k → x < 2 ^ r → shl 64 x (k - r) ≡ x * 2 ^ (k - r)
shl64_fits k x small r le lt =
    let width : 2 ^ k ≤ 2 ^ 64 = pow-le-pow_right (omega arith) small in
    mod-eq_of_lt (le_trans (moved_up_lt k r x le lt) width)

module _ (l : IeeeLayout) (bits len : ℕ) (small : l.mant_bits ≤ 52) (narrow : l.exp_bits ≤ 11) where
  -- A stream as long as the exponent field or longer.
  spread_long :
      l.exp_bits ≤ len
      → len ≤ l.exp_bits + l.mant_bits
      → spread l bits len ≡ (
        bits / 2 ^ (len - l.exp_bits),
        bits % 2 ^ (len - l.exp_bits) * 2 ^ (l.mant_bits - (len - l.exp_bits)),
      )
  unfolding spread
  spread_long long room =
      let long_test : leb l.exp_bits len ≡ true = ground arith in
      elim (Bool-cases (leb 1 (len - l.exp_bits))) [
        | inl some ↦
            let pos : 0 < 2 ^ (len - l.exp_bits) = one-le-pow (len - l.exp_bits) 2 (omega arith) in
            rw
              (
                long_test,
                some,
                shl_one (len - l.exp_bits) (omega arith),
                bit_and_mask (len - l.exp_bits) bits,
                shl64_fits l.mant_bits (bits % 2 ^ (len - l.exp_bits)) (omega arith)
                    (len - l.exp_bits) (omega arith) (mod-lt bits pos),
              )
              refl
        | inr none ↦
            let exact : len - l.exp_bits ≡ 0 = ground arith in
            rw (long_test, none, exact) (ap (λ (t : ℕ). (bits / 2 ^ 0, t)) (no_low_bits bits _))
      ]

  -- A shorter one.
  spread_short :
      len < l.exp_bits → bits < 2 ^ len → spread l bits len ≡ (bits * 2 ^ (l.exp_bits - len), 0)
  unfolding spread
  spread_short short fits =
      let short_test : leb l.exp_bits len ≡ false = ground arith in
      rw (short_test, shl64_fits l.exp_bits bits (omega arith) len (omega arith) fits) refl

  -- Exponent and mantissa together are the stream, moved to the top of their fields.
  pub spread_lem :
      len ≤ l.exp_bits + l.mant_bits
      → bits < 2 ^ len
      → ((spread l bits len).0 * 2 ^ l.mant_bits + (spread l bits len).1
          ≡ bits * 2 ^ (l.exp_bits + l.mant_bits - len))
        × ((spread l bits len).1 < 2 ^ l.mant_bits)
  spread_lem room fits = elim (Bool-cases (leb l.exp_bits len)) [
    | inl long ↦
        let pos : 0 < 2 ^ (len - l.exp_bits) = one-le-pow (len - l.exp_bits) 2 (omega arith) in
        let exponent : l.exp_bits + l.mant_bits - len ≡ l.mant_bits - (len - l.exp_bits) =
          ground arith in
        rw (spread_long (ground arith) room, exponent)
          (
            omega (
              arith,
              ap (λ (t : ℕ). bits / 2 ^ (len - l.exp_bits) * t)
                  (split_power l.mant_bits (len - l.exp_bits) (omega arith)),
              ap (λ (t : ℕ). t * 2 ^ (l.mant_bits - (len - l.exp_bits)))
                  (div-add-mod' bits (2 ^ (len - l.exp_bits))),
            ),
            moved_up_lt l.mant_bits (len - l.exp_bits) _ (omega arith) (mod-lt bits pos),
          )
    | inr short ↦
        let pos : 1 ≤ 2 ^ l.mant_bits = one-le-pow l.mant_bits 2 (omega arith) in
        let exponent : l.exp_bits + l.mant_bits - len ≡ l.exp_bits - len + l.mant_bits =
          ground arith in
        rw (spread_short (ground arith) fits, exponent)
          (
            omega (arith, ap (λ (t : ℕ). bits * t) (pow_add (l.exp_bits - len) l.mant_bits)),
            omega arith,
          )
  ]

-- What a code's stream is spread into is the lower edge of the code's bin.
pub spread-stream :
    (l : IeeeLayout) (top p z P : ℕ)
    → l.mant_bits ≤ 52
    → l.exp_bits ≤ 11
    → l.exp_bits + l.mant_bits ≡ top + 2
    → p ≤ 14
    → p + 14 ≤ top
    → z ≤ 15
    → P < 2 ^ p
    → let sp = spread l (stream p z P).0 (stream p z P).1 in
      (sp.0 * 2 ^ l.mant_bits + sp.1 ≡ edge top p z P) × (sp.1 < 2 ^ l.mant_bits)
spread-stream l top p z P small narrow total hp room hz hP =
    let st = stream_lem p z P hp hz hP in
    let inside : length_of p z ≤ l.exp_bits + l.mant_bits = ground arith in
    let shift : l.exp_bits + l.mant_bits - length_of p z ≡ shift_of top p z = ground arith in
    let sp = spread_lem l (stream_of p z P) (length_of p z) small narrow inside st.1 in
    rw st.0 (sp.0 ∙ ap (λ (t : ℕ). stream_of p z P * 2 ^ t) shift, sp.1)
