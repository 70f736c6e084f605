-- ===== src/Count/Writer.antt =====
-- What the writer of the counts puts out: the bytes of one number, in which each count has its bits.
use native.Mathlib.Nat.{le_refl}
use air_tree.Common.{
  ℕ, zero, suc, ◌+◌, ◌-◌, ◌*◌, ◌/◌, ◌%◌, ◌^◌, ◌<◌, ◌≤◌, ◌≡◌, ◌∙◌, refl, ap, arith, List, [], ◌∷◌,
  ◌++◌, ◌==◌, at_or, length, pow_add, join_bits, Bool-cases, inl, inr, leb, bit_and_low8,
  length-replicate, replicate, some,
}
use air_tree.Count.Width.{minimum_bits_lem}
use air_tree.SetBits.{set_bits}
use Prim.Native.Nat.{max}
use air_tree.Count.Codec.{emit, pack, max_loop, overwrite, serialize_counts}
use air_tree.Count.Number.{spell, length-spell}

-- Every count of the bins has `b` bits.
abbrev pub Fits : ℕ → List ℕ → List ℕ → Type 0
Fits b counts [] = Unit {0}
Fits b counts (i ∷ is) = (at_or 0 counts i < 2 ^ b) × Fits b counts is

-- The counts of the bins one behind the other, `b` bits each.
abbrev pub packed : ℕ → List ℕ → List ℕ → ℕ
packed b counts [] = 0
packed b counts (i ∷ is) = at_or 0 counts i + 2 ^ b * packed b counts is

-- What a flush leaves: less than a byte, and with what comes later the same number.
abbrev Flushed : ℕ → ℕ → List ℕ × ℕ × ℕ → Type 0
Flushed buf n e =
    (e.2 < 8)
    × (e.1 < 2 ^ e.2)
    × (length e.0 * 8 + e.2 ≡ n)
    × ((k v : ℕ) → e.0 ++ spell k (e.1 + 2 ^ e.2 * v) ≡ spell (length e.0 + k) (buf + 2 ^ n * v))

-- A byte less.
byte_less : (n : ℕ) → 8 ≤ n → 2 ^ n ≡ 256 * 2 ^ (n - 8)
byte_less n h = let e : n ≡ 8 + (n - 8) = omega arith in ap (λ (t : ℕ). 2 ^ t) e ∙ pow_add 8 (n - 8)

-- One byte moved out.
spell_step :
    (n buf v k size : ℕ) (bytes : List ℕ)
    → 8 ≤ n
    → size ≡ suc k
    → bytes ≡ spell k (buf / 256 + 2 ^ (n - 8) * v)
    → buf % 2 ^ 8 ∷ bytes ≡ spell size (buf + 2 ^ n * v)
spell_step n buf v k size bytes h sized e =
    let low : (buf + 256 * 2 ^ (n - 8) * v) % 256 ≡ buf % 2 ^ 8 = omega arith in
    let high : (buf + 256 * 2 ^ (n - 8) * v) / 256 ≡ buf / 256 + 2 ^ (n - 8) * v = omega arith in
    rw (sized, byte_less n h, low, high, e) refl

emit-Flushed : (fuel buf n : ℕ) → n < 8 * fuel + 8 → buf < 2 ^ n → Flushed buf n (emit fuel buf n)
unfolding emit
emit-Flushed zero buf n enough small = (
  omega arith,
  small,
  omega arith,
  λ k v. ap (λ (t : ℕ). spell t (buf + 2 ^ n * v)) (omega arith),
)
emit-Flushed (suc fuel) buf n enough small = elim (Bool-cases (leb 8 n)) [
  | inl full ↦
      let more : 8 ≤ n = ground arith in
      let (low, below, size, same) =
        emit-Flushed fuel (buf / 256) (n - 8) (omega arith) (omega (arith, byte_less n more)) in
      rw (full, bit_and_low8 buf)
        (low, below, omega arith, λ k v. spell_step n buf v _ _ _ more (omega arith) (same k v))
  | inr room ↦ rw room (
    ground arith,
    small,
    omega arith,
    λ k v. ap (λ (t : ℕ). spell t (buf + 2 ^ n * v)) (omega arith),
  )
]

pack-spell :
    (b : ℕ) (counts is : List ℕ) (buf n : ℕ)
    → b ≤ 32
    → Fits b counts is
    → n < 8
    → buf < 2 ^ n
    → pack b counts is buf n
      ≡ spell ((n + length is * b + 7) / 8) (buf + 2 ^ n * packed b counts is)
unfolding pack
pack-spell b counts [] buf n le fits low small = elim (Bool-cases (n == 0)) [
  | inl empty ↦ let size : (n + 0 * b + 7) / 8 ≡ 0 = ground arith in rw (empty, size) refl
  | inr more ↦
      let size : (n + 0 * b + 7) / 8 ≡ 1 = ground arith in
      let whole : buf + 2 ^ n * 0 ≡ buf = omega arith in
      rw (more, size, whole, bit_and_low8 buf) refl
]
pack-spell b counts (i ∷ is) buf n le fits low small =
    let c = at_or 0 counts i in
    let (joined, below) = join_bits n b buf c small fits.0 (omega arith) in
    let (low', below', size, same) = emit-Flushed 8 (buf + 2 ^ n * c) (n + b) (omega arith) below in
    let e = emit 8 (buf + 2 ^ n * c) (n + b) in
    let bytes : (e.2 + length is * b + 7) / 8 + length e.0 ≡ (n + suc (length is) * b + 7) / 8 =
      omega arith in
    let all : buf + 2 ^ n * c + 2 ^ (n + b) * packed b counts is
        ≡ buf + 2 ^ n * (c + 2 ^ b * packed b counts is) =
      omega (arith, ap (λ (t : ℕ). t * packed b counts is) (pow_add n b)) in
    rw (joined, pack-spell b counts is e.1 e.2 le fits.1 low' below')
      (same ((e.2 + length is * b + 7) / 8) (packed b counts is)
        ∙ rw (all) (
            ap (λ (t : ℕ). spell t (buf + 2 ^ n * (c + 2 ^ b * packed b counts is))) (omega arith)))

spell_cong : {k k' v v' : ℕ} → k ≡ k' → v ≡ v' → spell k v ≡ spell k' v'
spell_cong e e' = rw (e, e') refl

max_loop-le : (is counts : List ℕ) (m : ℕ) → m ≤ max_loop is counts m
max_loop-le [] counts m = le_refl _
max_loop-le (i ∷ is) counts m = omega (arith, max_loop-le is counts (max m (at_or 0 counts i)))

-- The counts fit in as many bits as the greatest of them.
max_loop-Fits :
    (b : ℕ) (is counts : List ℕ) (m : ℕ) → max_loop is counts m < 2 ^ b → Fits b counts is
max_loop-Fits b [] counts m h = tt
max_loop-Fits b (i ∷ is) counts m h = (
  omega (arith, max_loop-le is counts (max m (at_or 0 counts i))),
  max_loop-Fits b is counts (max m (at_or 0 counts i)) h,
)

max_loop-lt :
    (is counts : List ℕ) (m : ℕ) → m < 2 ^ 32 → Fits 32 counts is → max_loop is counts m < 2 ^ 32
max_loop-lt [] counts m small fits = small
max_loop-lt (i ∷ is) counts m small fits =
    max_loop-lt is counts (max m (at_or 0 counts i)) (omega (arith, fits.0)) fits.1

-- Bytes that fill the room replace it.
overwrite-whole : (room bytes : List ℕ) → length room ≡ length bytes → overwrite room bytes ≡ bytes
unfolding overwrite
overwrite-whole [] [] same = refl
overwrite-whole (r ∷ room) [] same = absurd (omega arith)
overwrite-whole [] (b ∷ bytes) same = absurd (omega arith)
overwrite-whole (r ∷ room) (b ∷ bytes) same =
    ap (λ (t : List ℕ). b ∷ t) (overwrite-whole room bytes (omega arith))

-- The writer of the counts returns, if the counts of the set bins are 32-bit numbers. It puts out the
-- width and, in the size computed beforehand, the bytes of one number: each count has as many bits as
-- the width says, the width being at least 1, at most 32, and enough for each count.
pub serialize_counts-spell :
    (mask : List ℕ) (bins : ℕ) (counts : List ℕ)
    → Fits 32 counts (set_bits mask bins)
    → (b : ℕ) × (1 ≤ b)
      × (b ≤ 32)
      × Fits b counts (set_bits mask bins)
      × ((out : List ℕ)
          → serialize_counts mask bins counts out
            ≡ some (
                out
                ++ (b
                    ∷ spell
                        ((length (set_bits mask bins) * b + 7) / 8)
                        (packed b counts (set_bits mask bins)))))
unfolding serialize_counts
serialize_counts-spell mask bins counts fits =
    let is = set_bits mask bins in
    let (b, width, low, high, enough, exact) =
      minimum_bits_lem (max_loop is counts 0) (max_loop-lt is counts 0 (omega arith) fits) in
    let fits_width = max_loop-Fits b is counts 0 enough in
    let n = (length is * b + 7) / 8 in
    let bytes : pack b counts is 0 0 ≡ spell n (packed b counts is) =
      pack-spell b counts is 0 0 high fits_width (omega arith) (omega arith)
      ∙ spell_cong (omega arith) (omega arith) in
    let byte : b % 256 ≡ b = omega arith in
    let room : overwrite (replicate (1 + n) 0) (b ∷ spell n (packed b counts is))
        ≡ b ∷ spell n (packed b counts is) =
      overwrite-whole _ _
        (length-replicate (1 + n) 0 ∙ omega (arith, length-spell n (packed b counts is))) in
    (b, low, high, fits_width, λ out. rw (width, bytes, byte, room) refl)
