-- ===== src/Count/Number.antt =====
-- The number that a run of bytes of a buffer spells, lowest byte first.
use air_tree.Common.{
  AreBytes, at_or-byte, ℕ, zero, suc, ◌+◌, ◌*◌, ◌/◌, ◌%◌, ◌^◌, ◌<◌, ◌≤◌, ◌≡◌, ◌∙◌, refl, ap, arith,
  List, [], ◌∷◌, ◌++◌, at_or, length, pow_add, join_bits,
}
use air_tree.Mask.{load_loop}
use air_tree.Mask.RoundTrip.{at_or-append}

-- The number of the `n` bytes from offset `p`.
abbrev pub number : ℕ → List ℕ → ℕ → ℕ
number zero buffer p = 0
number (suc n) buffer p = at_or 0 buffer p + 256 * number n buffer (p + 1)

-- The `k` lowest bytes of a number.
abbrev pub spell : ℕ → ℕ → List ℕ
spell zero v = []
spell (suc k) v = v % 256 ∷ spell k (v / 256)

-- `2 ^ (8 * (n + 1))`.
pub pow8-suc : (n : ℕ) → 2 ^ (8 * suc n) ≡ 256 * 2 ^ (8 * n)
pow8-suc n = let e : 8 * suc n ≡ 8 + 8 * n = omega arith in rw e (pow_add 8 (8 * n))

pub number-lt :
    (n : ℕ) (buffer : List ℕ) (p : ℕ) → AreBytes buffer → number n buffer p < 2 ^ (8 * n)
number-lt zero buffer p h = omega arith
number-lt (suc n) buffer p h =
    omega (arith, pow8-suc n, number-lt n buffer (p + 1) h, at_or-byte buffer p h)

pub number-add :
    (m n : ℕ) (buffer : List ℕ) (p : ℕ)
    → number (m + n) buffer p ≡ number m buffer p + 2 ^ (8 * m) * number n buffer (p + m)
number-add zero n buffer p =
    let e : p + 0 ≡ p = omega arith in let e' : 0 + n ≡ n = omega arith in rw (e, e') (omega arith)
number-add (suc m) n buffer p =
    let e : p + suc m ≡ p + 1 + m = omega arith in
    let e' : suc m + n ≡ suc (m + n) = omega arith in
    rw (e, e', pow8-suc m) (omega (arith, number-add m n buffer (p + 1)))

-- The loop that loads bytes into a word adds them up.
pub load_loop-number :
    (n i : ℕ) (buffer : List ℕ) (p w : ℕ)
    → AreBytes buffer
    → i + n ≤ 8
    → w < 2 ^ (8 * i)
    → load_loop n i buffer p w ≡ w + 2 ^ (8 * i) * number n buffer (p + i)
unfolding load_loop
load_loop-number zero i buffer p w h fits small = omega arith
load_loop-number (suc n) i buffer p w h fits small =
    let byte = at_or-byte buffer (p + i) h in
    let (joined, below) = join_bits (8 * i) 8 w (at_or 0 buffer (p + i)) small byte (omega arith) in
    let moved : i * 8 ≡ 8 * i = omega arith in
    let next : p + suc i ≡ p + i + 1 = omega arith in
    let size : 8 * suc i ≡ 8 * i + 8 = omega arith in
    rw (moved, joined)
      (load_loop-number n (suc i) buffer p (w + 2 ^ (8 * i) * at_or 0 buffer (p + i)) h
          (omega arith) (rw size below)
        ∙ rw (next, pow8-suc i) (omega arith))

pub length-spell : (k v : ℕ) → length (spell k v) ≡ k
length-spell zero v = refl
length-spell (suc k) v = ap suc (length-spell k (v / 256))

pub spell-AreBytes : (k v : ℕ) → AreBytes (spell k v)
spell-AreBytes zero v = omega arith
spell-AreBytes (suc k) v = (omega arith, spell-AreBytes k (v / 256))

pub number-append :
    (n : ℕ) (front ys : List ℕ) (i : ℕ) → number n (front ++ ys) (length front + i) ≡ number n ys i
number-append zero front ys i = refl
number-append (suc n) front ys i =
    let next : length front + i + 1 ≡ length front + (i + 1) = omega arith in
    rw (next, number-append n front ys (i + 1), at_or-append front ys i) refl

pub number-tail : (n b : ℕ) (ys : List ℕ) (i : ℕ) → number n (b ∷ ys) (i + 1) ≡ number n ys i
number-tail n b ys i =
    let e : i + 1 ≡ length (b ∷ []) + i = omega arith in
    ap (λ (t : ℕ). number n (b ∷ ys) t) e ∙ number-append n (b ∷ []) ys i

-- The bytes of a number spell it.
pub number-spell : (n v : ℕ) (rest : List ℕ) → v < 2 ^ (8 * n) → number n (spell n v ++ rest) 0 ≡ v
number-spell zero v rest small = omega arith
number-spell (suc n) v rest small = omega (
  arith,
  number-tail n (v % 256) (spell n (v / 256) ++ rest) 0,
  number-spell n (v / 256) rest (omega (arith, pow8-suc n)),
)
