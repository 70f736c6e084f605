-- ===== src/Header/Values.antt =====
-- Numbers taken apart into bytes and put together again.
use native.Mathlib.Nat.{
  mod-eq_of_lt, mod-lt, one-le-pow, pow-le-pow_right, mul-le-mul_right, mul-add-mod_self_right,
  div-add-mod',
}
use air_tree.Common.{
  ℕ, zero, suc, ◌+◌, ◌*◌, ◌/◌, ◌%◌, ◌^◌, ◌≤◌, ◌<◌, ◌≡◌, ◌∙◌, arith, bit_and, bit_or, bit_or_below,
  shl, shr, pow_add, bit_and_low8, sym, ap,
}
use air_tree.Header.Bytes.{byte_of}

-- The remainder by `2 ^ (k + 8)` has one byte more than the one by `2 ^ k`.
next_byte : (k v : ℕ) → v % 2 ^ (k + 8) ≡ v / 2 ^ k % 2 ^ 8 * 2 ^ k + v % 2 ^ k
next_byte k v =
    let pos : 0 < 2 ^ k = one-le-pow k 2 (omega arith) in
    let low : v % 2 ^ k < 2 ^ k = mod-lt v pos in
    let scale : 2 ^ (k + 8) ≡ 2 ^ k * 2 ^ 8 = pow_add k 8 in
    let bound : v / 2 ^ k % 2 ^ 8 * 2 ^ k ≤ 255 * 2 ^ k = mul-le-mul_right (2 ^ k) (omega arith) in
    let split : v ≡ v / 2 ^ k / 2 ^ 8 * 2 ^ (k + 8) + (v / 2 ^ k % 2 ^ 8 * 2 ^ k + v % 2 ^ k) =
      omega (
        arith,
        div-add-mod' v (2 ^ k),
        ap (λ (t : ℕ). t * 2 ^ k) (div-add-mod' (v / 2 ^ k) (2 ^ 8)),
        ap (λ (t : ℕ). v / 2 ^ k / 2 ^ 8 * t) scale,
      ) in
    ap (λ (t : ℕ). t % 2 ^ (k + 8)) split
    ∙ mul-add-mod_self_right (v / 2 ^ k / 2 ^ 8) (2 ^ (k + 8)) _
    ∙ mod-eq_of_lt (omega arith)

-- One more byte is put in front.
or_next :
    (w k v : ℕ)
    → k + 8 ≤ w
    → bit_or (v % 2 ^ k) (shl w (bit_and (shr v k) 0xFF) k) ≡ v % 2 ^ (k + 8)
or_next w k v room =
    let pos : 0 < 2 ^ k = one-le-pow k 2 (omega arith) in
    let bound : v / 2 ^ k % 2 ^ 8 * 2 ^ k ≤ 255 * 2 ^ k = mul-le-mul_right (2 ^ k) (omega arith) in
    let inside : 2 ^ (k + 8) ≤ 2 ^ w = pow-le-pow_right (omega arith) room in
    let fits : v / 2 ^ k % 2 ^ 8 * 2 ^ k < 2 ^ w = omega (arith, pow_add k 8) in
    rw (bit_and_low8 (v / 2 ^ k), mod-eq_of_lt fits)
      (bit_or_below k (v / 2 ^ k % 2 ^ 8) (v % 2 ^ k) (mod-lt v pos) ∙ sym (next_byte k v))

first_byte : (v : ℕ) → byte_of v 0 ≡ v % 2 ^ 8
first_byte v = bit_and_low8 _ ∙ omega arith

pub le16 : (v : ℕ) → v < 2 ^ 16 → bit_or (byte_of v 0) (shl 32 (byte_of v 1) 8) ≡ v
le16 v h = rw (first_byte v) (or_next 32 8 v (omega arith) ∙ mod-eq_of_lt h)

pub le32 :
    (v : ℕ)
    → v < 2 ^ 32
    → bit_or
        (bit_or (bit_or (byte_of v 0) (shl 32 (byte_of v 1) 8)) (shl 32 (byte_of v 2) 16))
        (shl 32 (byte_of v 3) 24)
      ≡ v
le32 v h =
    rw
      (
        first_byte v,
        or_next 32 8 v (omega arith),
        or_next 32 16 v (omega arith),
        or_next 32 24 v (omega arith),
      )
      (mod-eq_of_lt h)

-- The bytes that `writeLE64` writes, as `readLE64` puts them together.
unfoldable pub le64_loop : ℕ → ℕ → ℕ → ℕ → ℕ
le64_loop zero i v acc = acc
le64_loop (suc n) i v acc = le64_loop n (suc i) v (bit_or acc (shl 64 (byte_of v i) (i * 8)))

le64_loop_lem :
    (n i v : ℕ) → (i + n) * 8 ≤ 64 → le64_loop n i v (v % 2 ^ (i * 8)) ≡ v % 2 ^ ((i + n) * 8)
unfolding le64_loop
le64_loop_lem zero i v room = ap (λ (t : ℕ). v % 2 ^ (t * 8)) (omega arith)
le64_loop_lem (suc n) i v room =
    let next : i * 8 + 8 ≡ suc i * 8 = omega arith in
    let last : suc i + n ≡ i + suc n = omega arith in
    rw (or_next 64 (i * 8) v (omega arith), next)
      (le64_loop_lem n (suc i) v (omega arith) ∙ ap (λ (t : ℕ). v % 2 ^ (t * 8)) last)

pub le64 : (v : ℕ) → v < 2 ^ 64 → le64_loop 8 0 v 0 ≡ v
le64 v h =
    let none : v % 2 ^ (0 * 8) ≡ 0 = omega arith in
    ap (λ (t : ℕ). le64_loop 8 0 v t) (sym none)
    ∙ le64_loop_lem 8 0 v (omega arith)
    ∙ mod-eq_of_lt h

pub byte_of-lt : (v i : ℕ) → byte_of v i < 256
byte_of-lt v i = omega (arith, bit_and_low8 (shr v (i * 8)))
