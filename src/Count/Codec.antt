-- ===== src/Count/Codec.antt =====
-- airtree-core/src/serdes/Count.cpp: the counts of the populated bins of a node, packed in as many bits
-- as the greatest of them needs. The loops over the set bits run over `set_bits`. A result of `false`
-- is `none`; else the counts, and the offset behind them. `while` loops run on fuel: 8 rounds move out
-- the 39 bits that the writer holds at most, and a width's worth of rounds reads in a count.
use Prim.Native.Nat.{max}
use air_tree.Common.{
  ℕ, zero, suc, ◌+◌, ◌-◌, ◌*◌, ◌/◌, ◌%◌, ◌^◌, bit_and, bit_or, Option, none, some, List, [], ◌∷◌,
  ◌++◌, ◌==◌, ltb, leb, if◌then◌else◌, shl, shr, at_or, modify, replicate, length, ◌>>=◌,
}
use air_tree.Count.{minimum_bits}
use air_tree.Mask.{mask_words, load_loop}
use air_tree.SetBits.{set_bits, popcount_words}

-- The greatest count of the bins.
abbrev pub max_loop : List ℕ → List ℕ → ℕ → ℕ
max_loop [] counts max_count = max_count
max_loop (i ∷ is) counts max_count = max_loop is counts (max max_count (at_or 0 counts i))

-- `while (bitCount >= 8)`: the bytes moved out, then what is left in the buffer.
unfoldable pub emit : ℕ → ℕ → ℕ → List ℕ × ℕ × ℕ
emit zero bit_buffer bit_count = ([], bit_buffer, bit_count)
emit (suc fuel) bit_buffer bit_count =
    let rest = emit fuel (shr bit_buffer 8) (bit_count - 8) in
    if leb 8 bit_count
    then (bit_and bit_buffer 0xFF ∷ rest.0, rest.1, rest.2)
    else ([], bit_buffer, bit_count)

-- The bytes of the counts of the bins, from a state of the bit buffer.
unfoldable pub pack : ℕ → List ℕ → List ℕ → ℕ → ℕ → List ℕ
pack min_bits counts [] bit_buffer bit_count =
    if bit_count == 0 then [] else bit_and bit_buffer 0xFF ∷ []
pack min_bits counts (i ∷ is) bit_buffer bit_count =
    let e =
      emit 8 (bit_or bit_buffer (shl 64 (at_or 0 counts i) bit_count)) (bit_count + min_bits) in
    e.0 ++ pack min_bits counts is e.1 e.2

-- Writing bytes into room made for them, from its start.
unfoldable pub overwrite : List ℕ → List ℕ → List ℕ
overwrite room [] = room
overwrite [] (b ∷ bytes) = []
overwrite (r ∷ room) (b ∷ bytes) = b ∷ overwrite room bytes

unfoldable pub serialize_counts : List ℕ → ℕ → List ℕ → List ℕ → Option (List ℕ)
serialize_counts mask bins counts out =
    let is = set_bits mask bins in
    minimum_bits (max_loop is counts 0) >>= (λ min_bits. some (
      out
      ++ overwrite (replicate (1 + (length is * min_bits + 7) / 8) 0)
          (min_bits % 256 ∷ pack min_bits counts is 0 0)))

-- The bit buffer, the bits in it and the offset.
abbrev pub BitState : Type 0
BitState = ℕ × ℕ × ℕ

-- `while (bitsInBuffer < minBits)`, byte by byte.
unfoldable pub refill_bytes : ℕ → ℕ → List ℕ → ℕ → ℕ → ℕ → BitState
refill_bytes zero min_bits buffer bit_buffer bits offset = (bit_buffer, bits, offset)
refill_bytes (suc fuel) min_bits buffer bit_buffer bits offset =
    let rest =
      refill_bytes fuel min_bits buffer (bit_or bit_buffer (shl 64 (at_or 0 buffer offset) bits))
        (bits + 8) (offset + 1) in
    if ltb bits min_bits then rest else (bit_buffer, bits, offset)

-- Eight bytes at once, of which those that fit are taken.
unfoldable pub refill_word : List ℕ → ℕ → ℕ → ℕ → BitState
refill_word buffer bit_buffer bits offset =
    let loaded = load_loop 8 0 buffer offset 0 in
    let take = shr (64 - bits) 3 in
    let next = if ltb take 8 then bit_and loaded (shl 64 1 (take * 8) - 1) else loaded in
    (bit_or bit_buffer (shl 64 next bits), bits + take * 8, offset + take)

unfoldable pub refill : ℕ → List ℕ → ℕ → ℕ → ℕ → ℕ → BitState
refill min_bits buffer end bit_buffer bits offset =
    if ltb bits min_bits
    then if leb (offset + 8) end
      then refill_word buffer bit_buffer bits offset
      else refill_bytes min_bits min_bits buffer bit_buffer bits offset
    else (bit_buffer, bits, offset)

unfoldable pub unpack : ℕ → List ℕ → ℕ → ℕ → List ℕ → List ℕ → ℕ → ℕ → ℕ → Option (List ℕ)
unpack min_bits buffer end bins [] counts bit_buffer bits offset = some counts
unpack min_bits buffer end bins (i ∷ is) counts bit_buffer bits offset =
    let r = refill min_bits buffer end bit_buffer bits offset in
    let count = bit_and r.0 (shl 64 1 min_bits - 1) % 2 ^ 32 in
    let rest =
      unpack min_bits buffer end bins is (modify i (λ c. count) counts) (shr r.0 min_bits)
        (r.1 - min_bits) r.2 in
    if leb bins i then none else rest

unfoldable pub deserialize_counts : List ℕ → ℕ → List ℕ → ℕ → List ℕ → Option (List ℕ × ℕ)
deserialize_counts buffer offset mask bins counts =
    let min_bits = at_or 0 buffer offset in
    let start = offset + 1 in
    let end = start + (popcount_words (mask_words bins) mask * min_bits + 7) / 8 in
    if leb (length buffer) offset
    then none
    else if ltb 32 min_bits
    then none
    else if ltb (length buffer) end
    then none
    else unpack min_bits buffer end bins (set_bits mask bins) counts 0 0 start
      >>= (λ read. some (read, end))

unfoldable pub skip_counts : List ℕ → ℕ → List ℕ → ℕ → Option ℕ
skip_counts buffer offset mask bins =
    let start = offset + 1 in
    let end = start + (popcount_words (mask_words bins) mask * at_or 0 buffer offset + 7) / 8 in
    if leb (length buffer) offset then none else if ltb (length buffer) end then none else some end
