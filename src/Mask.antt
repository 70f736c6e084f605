-- ===== src/Mask.antt =====
-- airtree-core/src/serdes/BooleanArray.cpp: the populated mask of a node as bytes. The words are
-- copied as they lie in memory, lowest byte first on the supported machines.
pub mod RoundTrip
mod Tests
use air_tree.Common.{
  ℕ, zero, suc, ◌+◌, ◌*◌, ◌/◌, bit_or, Option, none, some, List, [], ◌∷◌, ◌++◌, ltb, if◌then◌else◌,
  shl, at_or, length,
}
use air_tree.Header.Bytes.{byte_of}

abbrev pub mask_words : ℕ → ℕ
mask_words bins = (bins + 63) / 64

abbrev pub bytes_of_word : ℕ → List ℕ
bytes_of_word w =
    byte_of w 0
    ∷ byte_of w 1
    ∷ byte_of w 2
    ∷ byte_of w 3
    ∷ byte_of w 4
    ∷ byte_of w 5
    ∷ byte_of w 6
    ∷ byte_of w 7
    ∷ []

-- The bytes of the first `n` words.
unfoldable pub bytes_of_words : ℕ → List ℕ → List ℕ
bytes_of_words zero words = []
bytes_of_words (suc n) [] = []
bytes_of_words (suc n) (w ∷ words) = bytes_of_word w ++ bytes_of_words n words

unfoldable pub write_populated_mask : List ℕ → ℕ → List ℕ → List ℕ
unfolding bytes_of_words
write_populated_mask words bins out = out ++ bytes_of_words (mask_words bins) words

-- Copying one word, with `n` bytes left and `i` done, and `n` words.
unfoldable pub load_loop : ℕ → ℕ → List ℕ → ℕ → ℕ → ℕ
load_loop zero i buffer p w = w
load_loop (suc n) i buffer p w =
    load_loop n (suc i) buffer p (bit_or w (shl 64 (at_or 0 buffer (p + i)) (i * 8)))

unfoldable pub load_words : ℕ → List ℕ → ℕ → List ℕ
unfolding load_loop
load_words zero buffer p = []
load_words (suc n) buffer p = load_loop 8 0 buffer p 0 ∷ load_words n buffer (p + 8)

-- `false` is `none`; else the words, and the offset behind them.
unfoldable pub read_populated_mask : List ℕ → ℕ → ℕ → Option (List ℕ × ℕ)
unfolding load_words
read_populated_mask buffer offset bins =
    if ltb (length buffer) (offset + mask_words bins * 8)
    then none
    else some (load_words (mask_words bins) buffer offset, offset + mask_words bins * 8)
