-- ===== src/Count/Reader.antt =====
-- What the reader of the counts takes: from the number that the bytes spell, the bits of one count
-- after the other, whichever way the bit buffer is filled.
use native.Mathlib.Nat.{
  add-mul-mod_self_left, add-mul-div_left, one-le-pow, div-lt_iff_lt-mul, mod-eq_of_lt, mod-lt,
  pow-le-pow_right,
}
use air_tree.Common.{
  AreBytes, if◌then◌else◌, bit_and_low, ℕ, zero, suc, ◌+◌, ◌-◌, ◌*◌, ◌/◌, ◌%◌, ◌^◌, ◌<◌, ◌≤◌, ◌≡◌,
  ◌∙◌, refl, sym, ap, arith, List, [], ◌∷◌, at_or, length, pow_add, join_bits, Bool-cases, inl, inr,
  leb, ltb, false, shl, bit_or, bit_and, modify, some,
}
use air_tree.Mask.{load_loop}
use air_tree.SetBits.Member.{AllBelow}
use air_tree.Count.Codec.{refill_bytes, refill_word, refill, unpack, BitState}
use air_tree.Count.Number.{number, number-lt, number-add, load_loop-number}

-- The bits in the buffer and those of the bytes up to `end` make up the number `v`.
abbrev pub Holds : List ℕ → ℕ → ℕ → BitState → Type 0
Holds buffer end v s =
    (s.0 < 2 ^ s.1) × (s.2 ≤ end) × (s.0 + 2 ^ s.1 * number (end - s.2) buffer s.2 ≡ v)

-- A refill keeps the number and the bits that are left, and makes `b` of them ready.
abbrev pub Refilled : ℕ → List ℕ → ℕ → ℕ → ℕ → BitState → Type 0
Refilled b buffer end v left s = Holds buffer end v s × (b ≤ s.1) × (s.1 + 8 * (end - s.2) ≡ left)

-- More bytes put behind the bits of the buffer.
take_bytes :
    (take : ℕ) (buffer : List ℕ) (end v buf n offset : ℕ)
    → AreBytes buffer
    → Holds buffer end v (buf, n, offset)
    → n + 8 * take ≤ 64
    → offset + take ≤ end
    → Holds buffer end v
        (bit_or buf (shl 64 (number take buffer offset) n), n + 8 * take, offset + take)
take_bytes take buffer end v buf n offset bytes holds room inside =
    let k = number take buffer offset in
    let rest = number (end - (offset + take)) buffer (offset + take) in
    let (joined, below) =
      join_bits n (8 * take) buf k holds.0 (number-lt take buffer offset bytes) room in
    let size : end - offset ≡ take + (end - (offset + take)) = omega arith in
    let split : number (end - offset) buffer offset ≡ k + 2 ^ (8 * take) * rest =
      ap (λ (t : ℕ). number t buffer offset) size ∙ number-add take _ buffer offset in
    let all : 2 ^ n * number (end - offset) buffer offset ≡ 2 ^ n * k + 2 ^ (n + 8 * take) * rest =
      ap (λ (t : ℕ). 2 ^ n * t) split ∙ rw (pow_add n (8 * take)) (omega arith) in
    rw joined (below, inside, omega (arith, all, holds.2))

refill_bytes-Refilled :
    (fuel b : ℕ) (buffer : List ℕ) (end v buf n offset : ℕ)
    → AreBytes buffer
    → Holds buffer end v (buf, n, offset)
    → b ≤ 32
    → b ≤ n + 8 * fuel
    → b ≤ n + 8 * (end - offset)
    → n ≤ 64
    → Refilled b buffer end v (n + 8 * (end - offset)) (refill_bytes fuel b buffer buf n offset)
unfolding refill_bytes
refill_bytes-Refilled zero b buffer end v buf n offset bytes holds le fuel_left enough room =
    (holds, omega arith, refl)
refill_bytes-Refilled (suc fuel) b buffer end v buf n offset bytes holds le fuel_left enough room =
    elim (Bool-cases (ltb n b)) [
      | inl short ↦
          let few : n < b = ground arith in
          let one : number 1 buffer offset ≡ at_or 0 buffer offset = omega arith in
          let eight : n + 8 * 1 ≡ n + 8 = omega arith in
          let left : n + 8 + 8 * (end - (offset + 1)) ≡ n + 8 * (end - offset) = omega arith in
          let next =
            take_bytes 1 buffer end v buf n offset bytes holds (omega arith) (omega arith) in
          rw (short, ← left)
            (refill_bytes-Refilled fuel b buffer end v
              (bit_or buf (shl 64 (at_or 0 buffer offset) n)) (n + 8) (offset + 1) bytes
              (rw (one, eight) at next) le (omega arith) (omega arith) (omega arith))
      | inr ready ↦ rw ready (holds, ground arith, refl)
    ]

number_from :
    (n : ℕ) (buffer : List ℕ) (p : ℕ)
    → 0 + 2 ^ (8 * 0) * number n buffer (p + 0) ≡ number n buffer p
number_from n buffer p = let e : p + 0 ≡ p = omega arith in rw e (omega arith)

-- The part of a loaded word that is taken.
taken :
    (take : ℕ) (buffer : List ℕ) (offset : ℕ)
    → AreBytes buffer
    → take ≤ 8
    → (if ltb take 8
        then bit_and (load_loop 8 0 buffer offset 0) (shl 64 1 (take * 8) - 1)
        else load_loop 8 0 buffer offset 0)
      ≡ number take buffer offset
taken take buffer offset bytes le =
    let loaded : load_loop 8 0 buffer offset 0 ≡ number 8 buffer offset =
      load_loop-number 8 0 buffer offset 0 bytes (omega arith) (omega arith)
      ∙ number_from 8 buffer offset in
    rw loaded (elim (Bool-cases (ltb take 8)) [
      | inl some_of ↦
          let few : take < 8 = ground arith in
          let eight : 8 ≡ take + (8 - take) = omega arith in
          let moved : take * 8 ≡ 8 * take = omega arith in
          rw (some_of, bit_and_low (take * 8) (number 8 buffer offset) (omega arith), moved)
            (ap (λ (t : ℕ). number t buffer offset % 2 ^ (8 * take)) eight
              ∙ rw (number-add take (8 - take) buffer offset) (
                  add-mul-mod_self_left (number take buffer offset) (2 ^ (8 * take))
                    (number (8 - take) buffer (offset + take)))
              ∙ mod-eq_of_lt (number-lt take buffer offset bytes))
      | inr all ↦
          let whole : 8 ≡ take = ground arith in
          rw all (ap (λ (t : ℕ). number t buffer offset) whole)
    ])

refill_word-Refilled :
    (b : ℕ) (buffer : List ℕ) (end v buf n offset : ℕ)
    → AreBytes buffer
    → Holds buffer end v (buf, n, offset)
    → b ≤ 32
    → n < b
    → offset + 8 ≤ end
    → Refilled b buffer end v (n + 8 * (end - offset)) (refill_word buffer buf n offset)
unfolding refill_word
refill_word-Refilled b buffer end v buf n offset bytes holds le few inside =
    let take = (64 - n) / 8 in
    let next = take_bytes take buffer end v buf n offset bytes holds (omega arith) (omega arith) in
    let size : take * 8 ≡ 8 * take = omega arith in
    rw (taken take buffer offset bytes (omega arith)) (rw size next, omega arith, omega arith)

refill-Refilled :
    (b : ℕ) (buffer : List ℕ) (end v buf n offset : ℕ)
    → AreBytes buffer
    → Holds buffer end v (buf, n, offset)
    → b ≤ 32
    → b ≤ n + 8 * (end - offset)
    → Refilled b buffer end v (n + 8 * (end - offset)) (refill b buffer end buf n offset)
unfolding refill
refill-Refilled b buffer end v buf n offset bytes holds le enough = elim (Bool-cases (ltb n b)) [
  | inl short ↦
      let few : n < b = ground arith in
      rw short (elim (Bool-cases (leb (offset + 8) end)) [
        | inl far ↦
            rw far
              (refill_word-Refilled b buffer end v buf n offset bytes holds le few (ground arith))
        | inr near ↦ rw near (
            refill_bytes-Refilled b b buffer end v buf n offset bytes holds le (omega arith) enough
              (omega arith))
      ])
  | inr ready ↦ rw ready (holds, ground arith, refl)
]

-- Taking `b` bits off the buffer takes them off the number.
take_bits :
    (b : ℕ) (buffer : List ℕ) (end v buf n offset : ℕ)
    → Holds buffer end v (buf, n, offset)
    → b ≤ n
    → (buf % 2 ^ b ≡ v % 2 ^ b) × Holds buffer end (v / 2 ^ b) (buf / 2 ^ b, n - b, offset)
take_bits b buffer end v buf n offset holds le =
    let rest = number (end - offset) buffer offset in
    let pos : 0 < 2 ^ b = one-le-pow b 2 (omega arith) in
    let size : n ≡ b + (n - b) = omega arith in
    let scale : 2 ^ n ≡ 2 ^ b * 2 ^ (n - b) = ap (λ (t : ℕ). 2 ^ t) size ∙ pow_add b (n - b) in
    let whole : v ≡ buf + 2 ^ b * (2 ^ (n - b) * rest) = sym holds.2 ∙ rw scale (omega arith) in
    let below : buf < 2 ^ (n - b) * 2 ^ b = omega (arith, holds.0, scale) in
    (
      rw whole (sym (add-mul-mod_self_left buf (2 ^ b) (2 ^ (n - b) * rest))),
      (
        (div-lt_iff_lt-mul pos).1 below,
        holds.1,
        rw whole (sym (add-mul-div_left buf (2 ^ (n - b) * rest) pos)),
      ),
    )

-- The bins, in order, get the lowest digits of `v`, of `b` bits each.
abbrev pub put_digits : ℕ → List ℕ → ℕ → List ℕ → List ℕ
put_digits b [] v counts = counts
put_digits b (i ∷ is) v counts = put_digits b is (v / 2 ^ b) (modify i (λ c. v % 2 ^ b) counts)

pub unpack-put_digits :
    (b : ℕ) (buffer : List ℕ) (end bins : ℕ) (is counts : List ℕ) (v buf n offset : ℕ)
    → AreBytes buffer
    → AllBelow bins is
    → b ≤ 32
    → Holds buffer end v (buf, n, offset)
    → length is * b ≤ n + 8 * (end - offset)
    → unpack b buffer end bins is counts buf n offset ≡ some (put_digits b is v counts)
unfolding unpack
unpack-put_digits b buffer end bins [] counts v buf n offset bytes inside le holds enough = refl
unpack-put_digits b buffer end bins (i ∷ is) counts v buf n offset bytes inside le holds enough =
    let r = refill b buffer end buf n offset in
    let (kept, ready, left) =
      refill-Refilled b buffer end v buf n offset bytes holds le (omega arith) in
    let (low, rest) = take_bits b buffer end v r.0 r.1 r.2 kept ready in
    let fits : v % 2 ^ b < 2 ^ b = mod-lt v (one-le-pow b 2 (omega arith)) in
    let narrow : 2 ^ b ≤ 2 ^ 32 = pow-le-pow_right (omega arith) le in
    let count : bit_and r.0 (shl 64 1 b - 1) % 2 ^ 32 ≡ v % 2 ^ b =
      ap (λ (t : ℕ). t % 2 ^ 32) (bit_and_low b r.0 (omega arith) ∙ low)
      ∙ mod-eq_of_lt (omega arith) in
    let in_range : leb bins i ≡ false = ground (arith, inside.0) in
    rw (in_range, count)
      (unpack-put_digits b buffer end bins is (modify i (λ c. v % 2 ^ b) counts) (v / 2 ^ b)
        (r.0 / 2 ^ b) (r.1 - b) r.2 bytes inside.1 le rest (omega arith))
