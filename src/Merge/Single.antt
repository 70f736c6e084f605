-- ===== src/Merge/Single.antt =====
-- The trie of an array, generated as a buffer: it can be merged, and it has the counts of the array.
use air_tree.Common.{
  ℕ, suc, ◌^◌, ◌<◌, ◌≤◌, ◌≡◌, ◌∙◌, refl, sym, ap, arith, List, [], ◌∷◌, length, at_or, at_or-beyond,
  Option, some, none, ltb, Bool-cases, inl, inr, map,
}
use air_tree.Config.{
  config_1d_tiny, lookup_config, lookup_params, builtins, register_generator, assign, find,
}
use air_tree.Populated.{test}
use air_tree.Header.Bytes.{ok}
use air_tree.Header.{AirTreeHeader, deserialize_header}
use air_tree.Header.RoundTrip.{IsWire}
use air_tree.Special.{SpecialCounts}
use air_tree.Trie1d.{TrieNode13Level1, filing_13, exec_create_and_insert}
use air_tree.Trie1d.Insert.{tally, AreDoubles, filing_13-IsFiling}
use air_tree.Trie1d.Conserve.{
  exec_create_and_insert-le, exec_create_and_insert-total, exec_create_and_insert-tally,
  exec_create_and_insert-shape,
}
use air_tree.Wire1d.{TrieRoot}
use air_tree.Wire1d.RoundTrip.{IsRoot, stored, stored-nodes}
use air_tree.Wire1d.Buffer.{whole, no_special, generate_1dxt, exec_serialization_13}
use air_tree.Wire1d.Buffer.Whole.{AreCounters, header_of, header-IsWire}
use air_tree.Wire1d.Generated.{
  built-IsRoot, counters_fit, counter_read, child_of_whole, tally-le, all_values, child_counter,
  built, root,
}
use air_tree.Merge.Trees.{Tree, count_under}
use air_tree.Merge.Stored.{IsStored}
use air_tree.Merge.Serialized.{tree_of, child_counts, exec_serialization-IsStored}

-- The trie of an array, its special counters and its header, which have `n` bytes behind them.
abbrev pub trie : List ℕ → TrieRoot
trie values = whole (exec_create_and_insert filing_13 values no_special).0

abbrev pub special : List ℕ → SpecialCounts
special values = (exec_create_and_insert filing_13 values no_special).1

abbrev pub header : List ℕ → ℕ → AirTreeHeader
header values n = header_of config_1d_tiny (trie values) (special values) n

abbrev pub tree : List ℕ → Tree (256 ∷ 32 ∷ [])
tree values = tree_of 32 (trie values)

length-whole :
    (nodes : List TrieNode13Level1) → length (map (λ node. some node.counts) nodes) ≡ length nodes
length-whole [] = refl
length-whole (node ∷ nodes) = ap suc (length-whole nodes)

module _ (values : List ℕ) (doubles : AreDoubles values) (few : length values < 2 ^ 31) where
  small : length values < 2 ^ 32
  small = omega arith

  trie-IsRoot : IsRoot 32 (trie values)
  unfolding built
  trie-IsRoot = built-IsRoot filing_13 filing_13-IsFiling values no_special doubles small

  special-AreCounters : AreCounters (special values)
  special-AreCounters =
      counters_fit filing_13 filing_13-IsFiling values no_special doubles small (omega arith)

  pub generated :
      (buffer : List ℕ) × (n : ℕ) × (generate_1dxt values ≡ ok (some buffer))
      × (deserialize_header buffer ≡ ok (header values n))
      × IsStored 256 (32 ∷ []) buffer 49 (tree values)
  unfolding generate_1dxt exec_serialization_13 lookup_config lookup_params builtins
      register_generator assign find
  generated =
      exec_serialization-IsStored 32 config_1d_tiny (trie values) (special values) (omega arith)
        (omega arith) refl trie-IsRoot special-AreCounters

  pub header_values-IsWire : (n : ℕ) → IsWire (header values n)
  unfolding lookup_config lookup_params builtins register_generator assign find
  header_values-IsWire n =
      let w =
        header-IsWire 32 config_1d_tiny (trie values) (special values) (omega arith) (omega arith)
          refl trie-IsRoot special-AreCounters in
      record {
        version = w.version;
        header_length = w.header_length;
        known = w.known;
        trie_count = w.trie_count;
        pos_inf_count = w.pos_inf_count;
        neg_inf_count = w.neg_inf_count;
        pos_zero_count = w.pos_zero_count;
        neg_zero_count = w.neg_zero_count;
        nan_count = w.nan_count;
      }

  pub root_counter-le : (i : ℕ) → at_or 0 (trie values).counts i ≤ length values
  root_counter-le i = omega (
    arith,
    exec_create_and_insert-le filing_13 filing_13-IsFiling values no_special doubles small i,
  )

  child_counter-tally :
      (i j : ℕ)
      → i < 256
      → at_or 0 (child_counts (at_or none (trie values).nodes i)) j ≡ tally filing_13 values i j
  child_counter-tally i j h =
      let shape =
        (exec_create_and_insert-shape filing_13 filing_13-IsFiling values no_special doubles
          small).0 in
      rw
        (child_of_whole (exec_create_and_insert filing_13 values no_special).0.nodes i
          (omega (arith, shape.nodes)))
        (exec_create_and_insert-tally filing_13 filing_13-IsFiling values no_special doubles small i
          j h).0

  pub under-tally :
      (i j : ℕ)
      → i < 256
      → count_under (256 ∷ 32 ∷ []) (tree values) (i ∷ j ∷ []) ≡ tally filing_13 values i j
  unfolding count_under root
  under-tally i j h =
      let read =
        counter_read filing_13 filing_13-IsFiling values i j doubles small h (stored (trie values))
          (stored-nodes 32 (trie values) trie-IsRoot i) in
      elim (Bool-cases (test (trie values).populated i)) [
        | inl marked ↦ rw marked (child_counter-tally i j h)
        | inr unmarked ↦
            let gone : at_or none (stored (trie values)).nodes i ≡ none =
              stored-nodes 32 (trie values) trie-IsRoot i ∙ rw unmarked refl in
            rw unmarked (sym (ap (λ (t : Option (List ℕ)). child_counter t j) gone) ∙ read)
      ]

  pub child_counter-le :
      (i j : ℕ) → at_or 0 (child_counts (at_or none (trie values).nodes i)) j ≤ length values
  child_counter-le i j = elim (Bool-cases (ltb i 256)) [
    | inl inside ↦
        omega (arith, child_counter-tally i j (ground arith), tally-le filing_13 values i j)
    | inr outside ↦
        let shape =
          (exec_create_and_insert-shape filing_13 filing_13-IsFiling values no_special doubles
            small).0 in
        let nodes : length (trie values).nodes ≡ 256 =
          length-whole (exec_create_and_insert filing_13 values no_special).0.nodes ∙ shape.nodes in
        rw (at_or-beyond none (trie values).nodes i (ground (arith, outside, nodes))) (omega arith)
  ]

  pub all_values-header : (n : ℕ) → all_values (header values n) ≡ length values
  all_values-header n =
      (exec_create_and_insert-total filing_13 filing_13-IsFiling values no_special doubles
        (omega arith)).0
      ∙ omega arith
