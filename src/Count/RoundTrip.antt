-- ===== src/Count/RoundTrip.antt =====
-- Counts that were written are read back, and skipped.
use native.Mathlib.Nat.{
  mul-le-mul_right, add-mul-mod_self_left, add-mul-div_left, one-le-pow, mod-eq_of_lt, div-eq_of_lt,
  pow-le-pow_right,
}
use mathlib.Core.List.{append_assoc}
use air_tree.Common.{
  AreBytes, AreBytes-append, ℕ, suc, ◌+◌, ◌-◌, ◌*◌, ◌/◌, ◌%◌, ◌^◌, ◌<◌, ◌≤◌, ◌≡◌, ◌∙◌, refl, sym,
  ap, arith, List, [], ◌∷◌, ◌++◌, at_or, length, pow_add, leb, ltb, le→not_ltb, false, modify, some,
  length-append,
}
use air_tree.Mask.RoundTrip.{AreWords, at_or-append}
use air_tree.SetBits.{set_bits}
use air_tree.SetBits.Member.{AllBelow, put_all}
use air_tree.SetBits.Ones.{length-set_bits}
use air_tree.Count.Codec.{serialize_counts, deserialize_counts, skip_counts, unpack}
use air_tree.Count.Number.{
  spell, spell-AreBytes, length-spell, number, number-spell, number-append, number-tail,
}
use air_tree.Count.Writer.{Fits, packed, serialize_counts-spell}
use air_tree.Count.Reader.{put_digits, unpack-put_digits}

-- The digits of the packed counts are the counts.
put_digits-packed :
    (b : ℕ) (is source counts : List ℕ)
    → Fits b source is
    → put_digits b is (packed b source is) counts ≡ put_all 0 is source counts
put_digits-packed b [] source counts fits = refl
put_digits-packed b (i ∷ is) source counts fits =
    let pos : 1 ≤ 2 ^ b = one-le-pow b 2 (omega arith) in
    let c = at_or 0 source i in
    let low : (c + 2 ^ b * packed b source is) % 2 ^ b ≡ c =
      add-mul-mod_self_left c (2 ^ b) (packed b source is) ∙ mod-eq_of_lt fits.0 in
    let high : (c + 2 ^ b * packed b source is) / 2 ^ b ≡ packed b source is =
      add-mul-div_left c (packed b source is) pos
      ∙ ap (λ (t : ℕ). t + packed b source is) (div-eq_of_lt fits.0)
      ∙ omega arith in
    rw (low, high) (put_digits-packed b is source (modify i (λ t. c) counts) fits.1)

packed-lt :
    (b : ℕ) (is counts : List ℕ) → Fits b counts is → packed b counts is < 2 ^ (length is * b)
packed-lt b [] counts fits = let e : length {A = ℕ} [] * b ≡ 0 = omega arith in rw e (omega arith)
packed-lt b (i ∷ is) counts fits =
    let size : suc (length is) * b ≡ b + length is * b = omega arith in
    let next = packed-lt b is counts fits.1 in
    let top : suc (packed b counts is) * 2 ^ b ≤ 2 ^ (length is * b) * 2 ^ b =
      mul-le-mul_right (2 ^ b) next in
    rw (size, pow_add b (length is * b)) (omega (arith, top, fits.0))

-- The reader on a buffer that holds the counts whole.
pub deserialize_counts-put_digits :
    (buffer : List ℕ) (offset : ℕ) (mask : List ℕ) (bins : ℕ) (counts : List ℕ) (end : ℕ)
    → AreBytes buffer
    → AreWords mask
    → AllBelow bins (set_bits mask bins)
    → offset < length buffer
    → at_or 0 buffer offset ≤ 32
    → offset + 1 + (length (set_bits mask bins) * at_or 0 buffer offset + 7) / 8 ≡ end
    → end ≤ length buffer
    → deserialize_counts buffer offset mask bins counts
      ≡ some (
        put_digits
            (at_or 0 buffer offset)
            (set_bits mask bins)
            (number (end - (offset + 1)) buffer (offset + 1))
            counts,
        end,
      )
unfolding deserialize_counts
deserialize_counts-put_digits buffer offset mask bins counts end bytes words inside some_left narrow
      ends whole =
    let b = at_or 0 buffer offset in
    let is = set_bits mask bins in
    let v = number (end - (offset + 1)) buffer (offset + 1) in
    let start : leb (length buffer) offset ≡ false = ground arith in
    let width : ltb 32 b ≡ false = le→not_ltb _ _ narrow in
    let fits : ltb (length buffer) end ≡ false = le→not_ltb _ _ whole in
    let read : unpack b buffer end bins is counts 0 0 (offset + 1)
        ≡ some (put_digits b is v counts) =
      unpack-put_digits b buffer end bins is counts v 0 0 (offset + 1) bytes inside narrow
        (omega arith, omega arith, omega arith) (omega (arith, ends)) in
    rw (← length-set_bits mask bins words, start, width, ends, fits, read) refl

AreBytes-mid :
    (out rest : List ℕ) (b n v : ℕ)
    → AreBytes out
    → AreBytes rest
    → b < 256
    → AreBytes ((out ++ (b ∷ spell n v)) ++ rest)
AreBytes-mid out rest b n v h h' small =
    AreBytes-append (out ++ (b ∷ spell n v)) rest
      (AreBytes-append out (b ∷ spell n v) h (small, spell-AreBytes n v)) h'

-- Whole bytes are enough.
bits_in_bytes : (n : ℕ) → n ≤ 8 * ((n + 7) / 8)
bits_in_bytes n = omega arith

-- What is read at the offset and behind it.
width_at :
    (out rest : List ℕ) (b n v : ℕ) → at_or 0 ((out ++ (b ∷ spell n v)) ++ rest) (length out) ≡ b
width_at out rest b n v =
    let e : length out ≡ length out + 0 = omega arith in
    ap (λ (t : List ℕ). at_or 0 t (length out)) (append_assoc out (b ∷ spell n v) rest)
    ∙ ap (λ (t : ℕ). at_or 0 (out ++ (b ∷ (spell n v ++ rest))) t) e
    ∙ at_or-append out (b ∷ (spell n v ++ rest)) 0

number_at :
    (out rest : List ℕ) (b n v : ℕ)
    → v < 2 ^ (8 * n)
    → number n ((out ++ (b ∷ spell n v)) ++ rest) (length out + 1) ≡ v
number_at out rest b n v small =
    ap (λ (t : List ℕ). number n t (length out + 1)) (append_assoc out (b ∷ spell n v) rest)
    ∙ number-append n out (b ∷ (spell n v ++ rest)) 1
    ∙ number-tail n b (spell n v ++ rest) 0
    ∙ number-spell n v rest small

-- The packed counts are read, and skipped, whatever stands before and behind them.
pub read_packed :
    (mask : List ℕ) (bins : ℕ) (source counts out rest : List ℕ) (b : ℕ)
    → AreWords mask
    → AllBelow bins (set_bits mask bins)
    → b ≤ 32
    → Fits b source (set_bits mask bins)
    → AreBytes out
    → AreBytes rest
    → let is = set_bits mask bins in
      let written : List ℕ = out ++ (b ∷ spell ((length is * b + 7) / 8) (packed b source is)) in
      (deserialize_counts (written ++ rest) (length out) mask bins counts
        ≡ some (put_all 0 is source counts, length written))
      × (skip_counts (written ++ rest) (length out) mask bins ≡ some (length written))
unfolding skip_counts
read_packed mask bins source counts out rest b words inside high fits before after =
    let is = set_bits mask bins in
    let v = packed b source is in
    let n = (length is * b + 7) / 8 in
    let written = out ++ (b ∷ spell n v) in
    let wide : 2 ^ (length is * b) ≤ 2 ^ (8 * n) =
      pow-le-pow_right (omega arith) (bits_in_bytes (length is * b)) in
    let small : v < 2 ^ (8 * n) = omega (arith, packed-lt b is source fits) in
    let width = width_at out rest b n v in
    let size : length written ≡ length out + 1 + n =
      length-append out (b ∷ spell n v) ∙ omega (arith, length-spell n v) in
    let more = length-append written rest in
    let bytes = AreBytes-mid out rest b n v before after (omega arith) in
    let ends : length out + 1 + (length is * at_or 0 (written ++ rest) (length out) + 7) / 8
        ≡ length written =
      ap (λ (t : ℕ). length out + 1 + (length is * t + 7) / 8) width ∙ sym size in
    let span : length written - (length out + 1) ≡ n = omega (arith, size) in
    let read =
      deserialize_counts-put_digits (written ++ rest) (length out) mask bins counts (length written)
        bytes words inside (omega (arith, more, size)) (omega (arith, width)) ends
        (omega (arith, more)) in
    let start : leb (length (written ++ rest)) (length out) ≡ false = ground (arith, more, size) in
    let whole : ltb (length (written ++ rest)) (length written) ≡ false =
      le→not_ltb _ _ (omega (arith, more)) in
    (
      read
          ∙ rw
              (
                width,
                span,
                number_at out rest b n v small,
                put_digits-packed b is source counts fits,
              )
              refl,
      rw (← length-set_bits mask bins words, start, ends, whole) refl,
    )

-- The counts of the set bins that were written, as 32-bit numbers, behind whatever was written before and
-- before whatever follows, are read back into those bins; the other bins keep what they had. The reader
-- and the one that skips the counts both stop behind them. The set bins lie inside the node.
pub deserialize-serialize_counts :
    (mask : List ℕ) (bins : ℕ) (source counts out rest : List ℕ)
    → AreWords mask
    → AllBelow bins (set_bits mask bins)
    → Fits 32 source (set_bits mask bins)
    → AreBytes out
    → AreBytes rest
    → (written : List ℕ) × (serialize_counts mask bins source out ≡ some written)
      × (deserialize_counts (written ++ rest) (length out) mask bins counts
          ≡ some (put_all 0 (set_bits mask bins) source counts, length written))
      × (skip_counts (written ++ rest) (length out) mask bins ≡ some (length written))
deserialize-serialize_counts mask bins source counts out rest words inside fits before after =
    let (b, low, high, fits_width, e) = serialize_counts-spell mask bins source fits in
    let (read, skipped) =
      read_packed mask bins source counts out rest b words inside high fits_width before after in
    (_, e out, read, skipped)
