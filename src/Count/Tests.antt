-- ===== src/Count/Tests.antt =====
-- The theorems on counts at concrete counts.
use air_tree.Common.{
  List, [], ◌∷◌, ◌++◌, ◌+◌, ◌*◌, ◌/◌, AreBytes, length, ℕ, ◌-◌, ◌^◌, ◌<◌, ◌≤◌, ◌≡◌, ◌⊎◌, refl, ap,
  arith, some,
}
use air_tree.Count.{minimum_bits, width_loop}
use air_tree.SetBits.{set_bits, bits_loop, words_loop, countr_zero, countr_zero_from}
use air_tree.SetBits.Member.{AllBelow, put_all}
use air_tree.Count.Codec.{serialize_counts, deserialize_counts, skip_counts, pack, emit, overwrite}
use air_tree.Count.Number.{spell, number}
use air_tree.Count.Writer.{Fits, packed, serialize_counts-spell}
use air_tree.Count.Reader.{put_digits}
use air_tree.Count.RoundTrip.{deserialize-serialize_counts, deserialize_counts-put_digits}
use air_tree.Count.Width.{minimum_bits_lem}

widths : (minimum_bits 0 ≡ some 1) × (minimum_bits 255 ≡ some 8) × (minimum_bits 256 ≡ some 9)
unfolding minimum_bits width_loop
widths = (refl, refl, refl)

minimum_bits_lem_example :
    (b : ℕ) × (minimum_bits 70000 ≡ some b)
    × (1 ≤ b)
    × (b ≤ 32)
    × (70000 < 2 ^ b)
    × (b ≡ 1 ⊎ 2 ^ (b - 1) ≤ 70000)
minimum_bits_lem_example = minimum_bits_lem 70000 (omega arith)

abbrev four : List ℕ
four = 3 ∷ 0 ∷ 500 ∷ 1 ∷ []

bins_of_four : set_bits (13 ∷ []) 4 ≡ 0 ∷ 2 ∷ 3 ∷ []
unfolding set_bits words_loop bits_loop countr_zero countr_zero_from
bins_of_four = refl

-- Three counts of 9 bits after a byte of width: 3 + 500 * 2 ^ 9 + 2 ^ 18.
bytes_of_four : serialize_counts (13 ∷ []) 4 four (7 ∷ []) ≡ some (7 ∷ 9 ∷ 3 ∷ 232 ∷ 7 ∷ 0 ∷ [])
unfolding serialize_counts pack emit overwrite minimum_bits width_loop set_bits words_loop bits_loop
    countr_zero countr_zero_from
bytes_of_four = refl

four-AllBelow : AllBelow 4 (set_bits (13 ∷ []) 4)
four-AllBelow = rw bins_of_four (omega arith, (omega arith, (omega arith, tt)))

four-Fits : Fits 32 four (set_bits (13 ∷ []) 4)
four-Fits = rw bins_of_four (omega arith, (omega arith, (omega arith, tt)))

serialize_counts-spell_example :
    (b : ℕ) × (1 ≤ b)
    × (b ≤ 32)
    × Fits b four (set_bits (13 ∷ []) 4)
    × ((out : List ℕ)
        → serialize_counts (13 ∷ []) 4 four out
          ≡ some (
              out
              ++ (b
                  ∷ spell
                      ((length (set_bits (13 ∷ []) 4) * b + 7) / 8)
                      (packed b four (set_bits (13 ∷ []) 4)))))
serialize_counts-spell_example = serialize_counts-spell (13 ∷ []) 4 four four-Fits

deserialize-serialize_counts_example :
    (written : List ℕ) × (serialize_counts (13 ∷ []) 4 four (7 ∷ []) ≡ some written)
    × (deserialize_counts (written ++ (5 ∷ [])) 1 (13 ∷ []) 4 (0 ∷ 0 ∷ 0 ∷ 0 ∷ [])
        ≡ some (put_all 0 (set_bits (13 ∷ []) 4) four (0 ∷ 0 ∷ 0 ∷ 0 ∷ []), length written))
    × (skip_counts (written ++ (5 ∷ [])) 1 (13 ∷ []) 4 ≡ some (length written))
deserialize-serialize_counts_example =
    deserialize-serialize_counts (13 ∷ []) 4 four (0 ∷ 0 ∷ 0 ∷ 0 ∷ []) (7 ∷ []) (5 ∷ [])
      (omega arith, tt) four-AllBelow four-Fits (omega arith, tt) (omega arith, tt)

abbrev packed_four : List ℕ
packed_four = 7 ∷ 9 ∷ 3 ∷ 232 ∷ 7 ∷ 0 ∷ 5 ∷ []

packed_four-AreBytes : AreBytes packed_four
packed_four-AreBytes = (
  omega arith,
  (omega arith, (omega arith, (omega arith, (omega arith, (omega arith, (omega arith, tt)))))),
)

deserialize_counts-put_digits_example :
    deserialize_counts packed_four 1 (13 ∷ []) 4 (0 ∷ 0 ∷ 0 ∷ 0 ∷ [])
    ≡ some (put_digits 9 (set_bits (13 ∷ []) 4) (number 4 packed_four 2) (0 ∷ 0 ∷ 0 ∷ 0 ∷ []), 6)
deserialize_counts-put_digits_example =
    deserialize_counts-put_digits packed_four 1 (13 ∷ []) 4 (0 ∷ 0 ∷ 0 ∷ 0 ∷ []) 6
      packed_four-AreBytes (omega arith, tt) four-AllBelow (omega arith) (omega arith)
      (ap (λ (t : List ℕ). 2 + (length t * 9 + 7) / 8) bins_of_four) (omega arith)
