-- ===== src/Wire1d/Buffer.antt =====
-- airtree-core/src/schema/trie1d/1DxT.cpp and 1DxF.cpp, `execSerialization`, and src/serdes/trie1d,
-- `processBuffer`: a trie with its header as a buffer, and back. An exception is an `err`; `none` for the
-- buffer would be a serializer that goes on. The casts of the special counters are of numbers that are not
-- negative.
pub mod Whole
use air_tree.Common.{
  ℕ, zero, ◌-◌, Option, none, some, List, [], ltb, if◌then◌else◌, length, true, map,
}
use air_tree.Config.{config_1d_tiny, config_1d_fast}
use air_tree.Header.Bytes.{Result, ok, err, ◌>>=◌}
use air_tree.Header.{
  AirTreeHeader, make_header, serialize_header, deserialize_header, finalize_header,
}
use air_tree.Special.{SpecialCounts}
use air_tree.Trie1d.{
  exec_create_and_insert_16, filing_13, filing_16, TrieNode13, exec_create_and_insert,
  count_observations,
}
use air_tree.Wire1d.{TrieRoot, serialize_root, deserialize_root}

-- The buffer behind the header, finalized with the length of what was put there.
unfoldable pub finish : ℕ → Option (List ℕ) → Result (Option (List ℕ))
finish header_end none = ok none
finish header_end (some buffer) = do
  finalized ← finalize_header buffer (length buffer - header_end)
  ok (some finalized)

unfoldable pub exec_serialization : ℕ → ℕ → TrieRoot → SpecialCounts → Result (Option (List ℕ))
exec_serialization bins1 config root special = do
  header ←
      make_header config (0, 0, 0, 0) (count_observations root.counts) special.pos_inf_count
        special.neg_inf_count special.pos_zero_count special.neg_zero_count special.nan_count
  finish (length (serialize_header header []))
      (serialize_root bins1 root (serialize_header header []) true)

unfoldable pub exec_serialization_13 : TrieRoot → SpecialCounts → Result (Option (List ℕ))
exec_serialization_13 root special = exec_serialization 32 config_1d_tiny root special

unfoldable pub exec_serialization_16 : TrieRoot → SpecialCounts → Result (Option (List ℕ))
exec_serialization_16 root special = exec_serialization 256 config_1d_fast root special

-- The root, without the offset that the reader leaves.
abbrev pub root_of : Option (TrieRoot × ℕ) → Option TrieRoot
root_of none = none
root_of (some read) = some read.0

unfoldable pub process_buffer : ℕ → List ℕ → Result (Option TrieRoot × AirTreeHeader)
process_buffer bins1 buffer = do
  header ← deserialize_header buffer
  ok (
    if ltb header.header_length (length buffer)
        then root_of (deserialize_root bins1 buffer header.header_length true)
        else none,
    header,
  )

unfoldable pub process_buffer_1dxt : List ℕ → Result (Option TrieRoot × AirTreeHeader)
process_buffer_1dxt buffer = process_buffer 32 buffer

unfoldable pub process_buffer_1dxf : List ℕ → Result (Option TrieRoot × AirTreeHeader)
process_buffer_1dxf buffer = process_buffer 256 buffer

-- The trie that the builder makes, all of whose children are there, as the one that is stored.
abbrev pub whole : TrieNode13 → TrieRoot
whole root = record {
  populated = root.populated;
  nodes = map (λ node. some node.counts) root.nodes;
  counts = root.counts;
}

abbrev pub no_special : SpecialCounts
no_special = record {
  pos_inf_count = 0;
  neg_inf_count = 0;
  pos_zero_count = 0;
  neg_zero_count = 0;
  nan_count = 0;
}

-- `generate_1DxT`, of the values as doubles.
unfoldable pub generate_1dxt : List ℕ → Result (Option (List ℕ))
generate_1dxt values =
    let (root, special) = exec_create_and_insert filing_13 values no_special in
    exec_serialization_13 (whole root) special

-- `generate_1DxF`, likewise.
unfoldable pub generate_1dxf : List ℕ → Result (Option (List ℕ))
generate_1dxf values =
    let (root, special) = exec_create_and_insert_16 values no_special in
    exec_serialization_16 (whole root) special
