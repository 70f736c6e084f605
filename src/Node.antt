-- ===== src/Node.antt =====
-- airtree-core/include/airtree/core/serdes/Node.hpp, src/serdes/Node.cpp and src/serdes/EOF.cpp: a node on
-- the wire, its populated mask and the packed counts of the populated bins, and the marker that closes a
-- trie. `read_node` is the pair of calls with which every reader of a node starts.
pub mod Masked
pub mod RoundTrip
mod Tests
use Prim.Native.Nat.{min}
use air_tree.Common.{
  ℕ, zero, suc, ◌+◌, ◌-◌, ◌*◌, ◌^◌, bit_or, not, Option, none, some, List, [], ◌∷◌, ◌++◌, ◌==◌, ltb,
  if◌then◌else◌, shl, at_or, length, replicate, ◌>>=◌, to_int,
}
use air_tree.Mask.{mask_words, write_populated_mask, read_populated_mask}
use air_tree.Count.Codec.{serialize_counts, deserialize_counts, skip_counts}

-- The word of the bins from `base`, with `n` bins left and `i` done.
unfoldable pub mask_loop : ℕ → ℕ → ℕ → List ℕ → ℕ → ℕ
mask_loop zero base i counts m = m
mask_loop (suc n) base i counts m =
    mask_loop n base (suc i) counts
      (bit_or m (shl 64 (to_int (not (at_or 0 counts (base + i) == 0))) i))

-- The words of the mask, with `n` of them left and `w` done.
unfoldable pub mask_words_loop : ℕ → ℕ → ℕ → List ℕ → List ℕ
mask_words_loop zero w bins counts = []
mask_words_loop (suc n) w bins counts =
    mask_loop (min bins (w * 64 + 64) - w * 64) (w * 64) 0 counts 0
    ∷ mask_words_loop n (suc w) bins counts

unfoldable pub mask_from_counts : List ℕ → ℕ → List ℕ
mask_from_counts counts bins = mask_words_loop (mask_words bins) 0 bins counts

unfoldable pub write_node : List ℕ → ℕ → List ℕ → List ℕ → Option (List ℕ)
write_node mask bins counts out =
    serialize_counts mask bins counts (write_populated_mask mask bins out)

unfoldable pub write_end_of_file_marker : List ℕ → List ℕ
write_end_of_file_marker out = out ++ (0xFF ∷ 0xFF ∷ 0xFF ∷ 0xFF ∷ [])

-- The offset behind the marker, `none` for `false`. The marker is an `int32_t` of -1.
unfoldable pub verify_end_of_file_marker : List ℕ → ℕ → Option ℕ
verify_end_of_file_marker buffer offset =
    let marker =
      at_or 0 buffer offset
      + 2 ^ 8 * at_or 0 buffer (offset + 1)
      + 2 ^ 16 * at_or 0 buffer (offset + 2)
      + 2 ^ 24 * at_or 0 buffer (offset + 3) in
    if ltb (length buffer) (offset + 4)
    then none
    else if marker == 2 ^ 32 - 1
    then some (offset + 4)
    else none

-- The mask of a node and an array of counts with those of the node put into it, and the offset behind it;
-- `none` for a buffer that is too short.
unfoldable pub read_node_into : List ℕ → ℕ → ℕ → List ℕ → Option (List ℕ × List ℕ × ℕ)
read_node_into buffer offset bins counts = read_populated_mask buffer offset bins >>= (λ read.
    deserialize_counts buffer read.1 read.0 bins counts
    >>= (λ counted. some (read.0, counted.0, counted.1)))

-- The same of a new node, with `none` for a null pointer.
unfoldable pub read_node : List ℕ → ℕ → ℕ → Option (List ℕ × List ℕ × ℕ)
read_node buffer offset bins = read_node_into buffer offset bins (replicate bins 0)

-- The mask of a node that is skipped, and the offset behind it.
unfoldable pub skip_node : List ℕ → ℕ → ℕ → Option (List ℕ × ℕ)
skip_node buffer offset bins =
    read_populated_mask buffer offset bins
    >>= (λ read. skip_counts buffer read.1 read.0 bins >>= (λ behind. some (read.0, behind)))
