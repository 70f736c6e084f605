-- ===== src/Wire1d/Buffer/Whole.antt =====
-- A trie that was serialized with its header is processed back.
use air_tree.Common.{
  ℕ, ◌-◌, ◌^◌, ◌<◌, ◌≤◌, ◌≡◌, ◌∙◌, refl, sym, ap, arith, List, [], ◌++◌, none, some, ltb, lt→ltb,
  if◌then◌else◌, at_or, length, length-append, true,
}
use mathlib.Core.List.{append-nil}
use native.Mathlib.Nat.{mod-lt}
use air_tree.Populated.{test}
use air_tree.Config.{
  config_1d_tiny, config_1d_fast, lookup_config, lookup_params, builtins, register_generator,
  assign, find,
}
use air_tree.Header.Bytes.{ok}
use air_tree.Header.{AirTreeHeader, found, make_header, serialize_header}
use air_tree.Header.RoundTrip.{IsWire, HasByteTypes, finalize_header-front}
use air_tree.Special.{SpecialCounts}
use air_tree.Trie1d.{count_observations}
use air_tree.Wire1d.{TrieRoot, deserialize_root}
use air_tree.Wire1d.RoundTrip.{IsRoot, stored, root-AreRoot, stored-nodes}
use air_tree.Wire1d.Buffer.{
  finish, exec_serialization, exec_serialization_13, exec_serialization_16, process_buffer,
  process_buffer_1dxt, process_buffer_1dxf,
}

-- The special counters are `int`s that are not negative.
pub record AreCounters (special : SpecialCounts) : Type 0 where
  pub pos_inf : special.pos_inf_count < 2 ^ 31
  pub neg_inf : special.neg_inf_count < 2 ^ 31
  pub pos_zero : special.pos_zero_count < 2 ^ 31
  pub neg_zero : special.neg_zero_count < 2 ^ 31
  pub nan : special.nan_count < 2 ^ 31

-- The header that a trie gets.
abbrev pub header_of : ℕ → TrieRoot → SpecialCounts → ℕ → AirTreeHeader
header_of config root special n = record {
  version = 1;
  header_length = 49;
  config = config;
  data_types = (0, 0, 0, 0);
  payload_length = n;
  trie_count = count_observations root.counts;
  pos_inf_count = special.pos_inf_count;
  neg_inf_count = special.neg_inf_count;
  pos_zero_count = special.pos_zero_count;
  neg_zero_count = special.neg_zero_count;
  nan_count = special.nan_count;
}

module _ (bins1 config : ℕ) (root : TrieRoot) (special : SpecialCounts) (small : bins1 ≤ 256)
    (byte : config < 256) (known : found (lookup_config config) ≡ true) (trie : IsRoot bins1 root)
    (counters : AreCounters special) where
  pub header-IsWire : IsWire (header_of config root special 0)
  unfolding count_observations
  header-IsWire = record {
    version = omega arith;
    header_length = refl;
    known = known;
    trie_count = mod-lt _ (omega arith);
    pos_inf_count = omega (arith, counters.pos_inf);
    neg_inf_count = omega (arith, counters.neg_inf);
    pos_zero_count = omega (arith, counters.pos_zero);
    neg_zero_count = omega (arith, counters.neg_zero);
    nan_count = omega (arith, counters.nan);
  }

  -- The buffer is the header and the trie, which is read back.
  pub process_buffer-exec_serialization :
      (buffer : List ℕ) × (exec_serialization bins1 config root special ≡ ok (some buffer))
      × (process_buffer bins1 buffer
          ≡ ok (some (stored root), header_of config root special (length buffer - 49)))
  unfolding exec_serialization process_buffer make_header finish
  process_buffer-exec_serialization =
      let h = header_of config root special 0 in
      let (tail, wire) = root-AreRoot bins1 root trie in
      let types : HasByteTypes h =
        (byte, (omega arith, (omega arith, (omega arith, (omega arith, tt))))) in
      let (front, bytes, long, length_before, bytes_before, finalized, read) =
        finalize_header-front h (length tail) tail header-IsWire types (omega (arith, wire.size)) in
      let all = length-append front tail in
      let behind : length (serialize_header h [] ++ tail) - length (serialize_header h [])
          ≡ length tail =
        omega (arith, length-append (serialize_header h []) tail) in
      let some_payload : ltb 49 (length (front ++ tail)) ≡ true =
        lt→ltb _ _ (omega (arith, all, long, wire.nonempty)) in
      let payload : length (front ++ tail) - 49 ≡ length tail = omega (arith, all, long) in
      let back : deserialize_root bins1 (front ++ tail) 49 true
          ≡ some (stored root, length (front ++ tail)) =
        ap (λ (t : List ℕ). deserialize_root bins1 t 49 true) (sym (append-nil (front ++ tail)))
        ∙ ap (λ (t : ℕ). deserialize_root bins1 ((front ++ tail) ++ []) t true) (sym long)
        ∙ wire.read front [] bytes tt in
      (
        front ++ tail,
        rw (known, wire.written (serialize_header h []), behind, finalized) refl,
        rw (read, payload, some_payload, back) refl,
      )

-- What is read of a trie: its mask, its counters, and the children of the populated bins.
abbrev pub Recovers : TrieRoot → TrieRoot → Type 0
Recovers root read =
    (read.populated ≡ root.populated)
    × (read.counts ≡ root.counts)
    × ((i : ℕ)
        → at_or none read.nodes i
          ≡ (if test root.populated i then at_or none root.nodes i else none))

module _ (root : TrieRoot) (special : SpecialCounts) (counters : AreCounters special) where
  -- Serializing a trie of 13-bit codes with its header succeeds, and the buffer is processed back. The header
  -- has the configuration, the observations, the special counters and the length of what follows it;
  -- the trie has the mask and the counters, and the children of the populated bins. The mask has the bins
  -- whose counter is not 0, and these have children.
  pub process_buffer_1dxt-exec_serialization_13 :
      IsRoot 32 root
      → (buffer : List ℕ) × (exec_serialization_13 root special ≡ ok (some buffer))
        × (read : TrieRoot) × (process_buffer_1dxt buffer
            ≡ ok (some read, header_of config_1d_tiny root special (length buffer - 49)))
        × Recovers root read
  unfolding exec_serialization_13 process_buffer_1dxt lookup_config lookup_params builtins
      register_generator assign find
  process_buffer_1dxt-exec_serialization_13 trie =
      let (buffer, written, processed) =
        process_buffer-exec_serialization 32 config_1d_tiny root special (omega arith) (omega arith)
          refl trie counters in
      (buffer, written, stored root, processed, (refl, refl, stored-nodes 32 root trie))

  -- The same of a trie of 16-bit codes.
  pub process_buffer_1dxf-exec_serialization_16 :
      IsRoot 256 root
      → (buffer : List ℕ) × (exec_serialization_16 root special ≡ ok (some buffer))
        × (read : TrieRoot) × (process_buffer_1dxf buffer
            ≡ ok (some read, header_of config_1d_fast root special (length buffer - 49)))
        × Recovers root read
  unfolding exec_serialization_16 process_buffer_1dxf lookup_config lookup_params builtins
      register_generator assign find
  process_buffer_1dxf-exec_serialization_16 trie =
      let (buffer, written, processed) =
        process_buffer-exec_serialization 256 config_1d_fast root special (omega arith)
          (omega arith) refl trie counters in
      (buffer, written, stored root, processed, (refl, refl, stored-nodes 256 root trie))
