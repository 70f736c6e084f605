-- ===== src/Merge.antt =====
-- airtree-merge/src/NWayMerge.cpp: the merge of any number of stored tries of one dimension. A trie is the
-- bins of its levels, the root's first; the inputs are buffers, and the cursors of the inputs are their
-- offsets. A cursor whose buffer is read past its end throws `corrupt`, which is `none`. The scratch arrays
-- of a level are made anew in each call: the code clears them, but for the masks and `tmp`, of which it
-- reads only what the call has written. The mask in `skipSubtree` has room for 64 words, that is, for a level
-- of 4096 bins; the levels of streamingLevels have at most 256.
pub mod Trees
pub mod Placed
pub mod Skip
pub mod Gather
pub mod Sums
pub mod Refine
pub mod Children
pub mod Whole
pub mod Count
pub mod Streaming
pub mod Stored
pub mod Adds
pub mod Serialized
pub mod Sizes
pub mod Single
pub mod Arrays
pub mod AirTrees
mod Tests
use air_tree.Common.{
  ℕ, zero, suc, ◌+◌, ◌-◌, ◌/◌, ◌%◌, ◌^◌, bit_and, bit_or, Bool, not, Option, none, some, List, [],
  ◌∷◌, ◌++◌, ◌==◌, if◌then◌else◌, shr, at_or, modify, replicate, length, ◌>>=◌,
}
use air_tree.Mask.{mask_words}
use air_tree.Populated.{union}
use air_tree.SetBits.{set_bits}
use air_tree.SetBits.Order.{filter}
use air_tree.Node.{write_node, read_node_into, skip_node}

-- The loop of `skipSubtree` over the children.
unfoldable pub skip_children : (ℕ → Option ℕ) → List ℕ → ℕ → Option ℕ
skip_children skip [] offset = some offset
skip_children skip (i ∷ is) offset = skip offset >>= (λ behind. skip_children skip is behind)

unfoldable pub skip_subtree : List ℕ → List ℕ → ℕ → Option ℕ
skip_subtree [] buffer offset = none
skip_subtree (bins ∷ []) buffer offset = skip_node buffer offset bins >>= (λ node. some node.1)
skip_subtree (bins ∷ next ∷ deeper) buffer offset =
    skip_node buffer offset bins
    >>= (λ node. skip_children (skip_subtree (next ∷ deeper) buffer) (set_bits node.0 bins) node.1)

-- `L.acc[i] += L.tmp[i]` over the set bits.
unfoldable pub accumulate : List ℕ → List ℕ → List ℕ → List ℕ
accumulate [] tmp acc = acc
accumulate (i ∷ is) tmp acc = accumulate is tmp (modify i (λ c. (c + at_or 0 tmp i) % 2 ^ 32) acc)

-- The cursors and the scratch of a level.
pub record Gathered : Type 0 where
  pub offsets : List ℕ
  pub masks : List (List ℕ)
  pub merged : List ℕ
  pub acc : List ℕ
  pub tmp : List ℕ

-- One round of the loop over the inputs, after its two reads.
unfoldable pub take_input : ℕ → ℕ → List ℕ × List ℕ × ℕ → Gathered → Gathered
take_input bins k read g = record {
  offsets = modify k (λ offset. read.2) g.offsets;
  masks = modify k (λ mask. read.0) g.masks;
  merged = union g.merged read.0;
  acc = accumulate (set_bits read.0 bins) read.1 g.acc;
  tmp = read.1;
}

unfoldable pub gather : ℕ → List (List ℕ) → List ℕ → Gathered → Option Gathered
gather bins buffers [] g = some g
gather bins buffers (k ∷ ks) g =
    read_node_into (at_or [] buffers k) (at_or 0 g.offsets k) bins g.tmp
    >>= (λ read. gather bins buffers ks (take_input bins k read g))

-- The merged node: what was gathered, and the output behind it.
unfoldable pub merge_node :
    ℕ → List (List ℕ) → List ℕ → List ℕ → List ℕ → Option (Gathered × List ℕ)
merge_node bins buffers inputs offsets out =
    gather bins buffers inputs (record {
      offsets = offsets;
      masks = replicate (length buffers) (replicate (mask_words bins) 0);
      merged = replicate (mask_words bins) 0;
      acc = replicate bins 0;
      tmp = replicate bins 0;
    })
    >>= (λ g. write_node g.merged bins g.acc out >>= (λ written. some (g, written)))

-- `(L.masks[k * words + i / 64] >> (i % 64)) & 1`.
unfoldable pub has_child : List (List ℕ) → ℕ → ℕ → Bool
has_child masks i k = not (bit_and (shr (at_or 0 (at_or [] masks k) (i / 64)) (i % 64)) 1 == 0)

-- The cursors and the output.
abbrev pub MergeState : Type 0
MergeState = List ℕ × List ℕ

-- The loop over the merged children; `merge` is the recursive call.
unfoldable pub merge_children :
    (List ℕ → List ℕ → List ℕ → Option MergeState)
    → List (List ℕ)
    → List ℕ
    → List ℕ
    → List ℕ
    → List ℕ
    → Option MergeState
merge_children merge masks inputs [] offsets out = some (offsets, out)
merge_children merge masks inputs (i ∷ is) offsets out =
    merge (filter (has_child masks i) inputs) offsets out
    >>= (λ s. merge_children merge masks inputs is s.0 s.1)

abbrev pub drop : ℕ → List ℕ → List ℕ
drop zero xs = xs
drop (suc n) [] = []
drop (suc n) (x ∷ xs) = drop n xs

abbrev pub take : ℕ → List ℕ → List ℕ
take zero xs = []
take (suc n) [] = []
take (suc n) (x ∷ xs) = x ∷ take n xs

-- The only input that has a subtree: its bytes are copied.
unfoldable pub copy_subtree : List ℕ → List (List ℕ) → ℕ → List ℕ → List ℕ → Option MergeState
copy_subtree levels buffers k offsets out =
    let start = at_or 0 offsets k in
    let buffer = at_or [] buffers k in
    skip_subtree levels buffer start >>= (λ end.
      some (modify k (λ offset. end) offsets, out ++ take (end - start) (drop start buffer)))

unfoldable pub merge_subtree : List ℕ → List (List ℕ) → List ℕ → List ℕ → List ℕ → Option MergeState
merge_subtree [] buffers inputs offsets out = none
merge_subtree (bins ∷ []) buffers inputs offsets out =
    if length inputs == 1
    then copy_subtree (bins ∷ []) buffers (at_or 0 inputs 0) offsets out
    else merge_node bins buffers inputs offsets out >>= (λ m. some (m.0.offsets, m.1))
merge_subtree (bins ∷ next ∷ deeper) buffers inputs offsets out =
    if length inputs == 1
    then copy_subtree (bins ∷ next ∷ deeper) buffers (at_or 0 inputs 0) offsets out
    else merge_node bins buffers inputs offsets out >>= (λ m.
      merge_children (merge_subtree (next ∷ deeper) buffers) m.0.masks inputs
        (set_bits m.0.merged bins) m.0.offsets m.1)
