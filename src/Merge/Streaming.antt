-- ===== src/Merge/Streaming.antt =====
-- airtree-merge/src/NWayMerge.cpp, `mergeStreaming` and the levels of a configuration: the merge of whole
-- buffers. The runtime error of `corrupt` is `ok none`, and the header codec's exceptions are `err`.
use air_tree.Common.{
  ℕ, zero, suc, ◌+◌, ◌-◌, ◌%◌, ◌^◌, Option, none, some, List, [], ◌∷◌, ◌==◌, if◌then◌else◌, length,
  map,
}
use air_tree.Config.{config_1d_tiny, config_1d_fast, config_1d_precise}
use air_tree.Header.Bytes.{Result, ok, ◌>>=◌}
use air_tree.Header.{AirTreeHeader, serialize_header, finalize_header}
use air_tree.Node.{write_end_of_file_marker, verify_end_of_file_marker}
use air_tree.Merge.{MergeState, merge_subtree}

unfoldable pub streaming_levels : ℕ → List ℕ
streaming_levels config =
    if config == config_1d_tiny
    then 256 ∷ 32 ∷ []
    else if config == config_1d_fast
    then 256 ∷ 256 ∷ []
    else if config == config_1d_precise
    then 256 ∷ 64 ∷ 64 ∷ []
    else []

-- A round of the loop that adds up the counters of the headers.
abbrev pub add_header : AirTreeHeader → AirTreeHeader → AirTreeHeader
add_header merged h = record merged {
  trie_count = (merged.trie_count + h.trie_count) % 2 ^ 32;
  pos_inf_count = (merged.pos_inf_count + h.pos_inf_count) % 2 ^ 32;
  neg_inf_count = (merged.neg_inf_count + h.neg_inf_count) % 2 ^ 32;
  pos_zero_count = (merged.pos_zero_count + h.pos_zero_count) % 2 ^ 32;
  neg_zero_count = (merged.neg_zero_count + h.neg_zero_count) % 2 ^ 32;
  nan_count = (merged.nan_count + h.nan_count) % 2 ^ 32;
}

unfoldable pub merge_headers : List AirTreeHeader → AirTreeHeader → AirTreeHeader
merge_headers [] merged = merged
merge_headers (h ∷ headers) merged = merge_headers headers (add_header merged h)

-- `all`: the inputs from `k` on.
abbrev pub inputs_from : ℕ → ℕ → List ℕ
inputs_from zero k = []
inputs_from (suc n) k = k ∷ inputs_from n (suc k)

-- Whether every cursor stands before a marker.
unfoldable pub all_end : List (List ℕ) → List ℕ → Option (Unit {0})
all_end [] offsets = some tt
all_end (buffer ∷ buffers) [] = some tt
all_end (buffer ∷ buffers) (offset ∷ offsets) =
    let rest = all_end buffers offsets in
    elim (verify_end_of_file_marker buffer offset) [ none ↦ none | some end ↦ rest ]

-- The marker and the final header.
unfoldable pub finalize_merged : ℕ → List ℕ → Result (Option (List ℕ))
finalize_merged header_end out = do
  finalized ←
      finalize_header (write_end_of_file_marker out)
        (length (write_end_of_file_marker out) - header_end)
  ok (some finalized)

-- What follows `mergeSubtree`.
unfoldable pub finish_merge : ℕ → List (List ℕ) → Option MergeState → Result (Option (List ℕ))
finish_merge header_end buffers none = ok none
finish_merge header_end buffers (some (offsets, out)) =
    let finished = finalize_merged header_end out in
    elim (all_end buffers offsets) [ none ↦ ok none | some ends ↦ finished ]

-- The headers are those of the buffers, the first one apart.
unfoldable pub merge_streaming :
    List (List ℕ) → AirTreeHeader → List AirTreeHeader → List ℕ → Result (Option (List ℕ))
merge_streaming buffers header headers levels =
    let out = serialize_header (merge_headers headers header) [] in
    finish_merge (length out) buffers (
      merge_subtree levels buffers (inputs_from (length buffers) 0)
        (map (λ h. h.header_length) (header ∷ headers)) out)
