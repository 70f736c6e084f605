-- ===== src/Wire1d/Generated.antt =====
-- `generate_1DxT` and `generate_1DxF`: the trie of an array, stored with its header, is processed back.
use air_tree.Common.{
  ℕ, zero, suc, ◌+◌, ◌-◌, ◌^◌, ◌<◌, ◌≤◌, ◌≡◌, ◌∙◌, refl, arith, ◌&&◌, ◌==◌, List, [], ◌∷◌, map,
  Option, none, some, ltb, if◌then◌else◌, at_or, at_or-beyond, length, Bool-cases, inl, inr,
}
use air_tree.Config.{config_1d_tiny, config_1d_fast}
use air_tree.Header.Bytes.{ok}
use air_tree.Header.{AirTreeHeader}
use air_tree.Populated.{test}
use air_tree.Populated.Laws.{test-beyond}
use air_tree.Special.{SpecialCounts}
use air_tree.Trie1d.{
  TrieNode13Level1, TrieNode13, empty_level1, exec_create_and_insert, Filing, filing_13, filing_16,
}
use air_tree.Trie1d.Bump.{sum}
use air_tree.Trie1d.Insert.{
  IsFiling, filing_13-IsFiling, filing_16-IsFiling, is_filed, tally, AreDoubles, total_special,
}
use air_tree.Trie1d.Conserve.{
  exec_create_and_insert-tally, exec_create_and_insert-shape, exec_create_and_insert-total,
}
use air_tree.Node.RoundTrip.{IsNode}
use air_tree.Wire1d.{TrieRoot}
use air_tree.Wire1d.RoundTrip.{IsRoot}
use air_tree.Wire1d.Buffer.{
  whole, no_special, generate_1dxt, process_buffer_1dxt, generate_1dxf, process_buffer_1dxf,
}
use air_tree.Wire1d.Buffer.Whole.{
  AreCounters, header_of, process_buffer_1dxt-exec_serialization_13,
  process_buffer_1dxf-exec_serialization_16,
}

pub child_of_whole :
    (nodes : List TrieNode13Level1) (i : ℕ)
    → i < length nodes
    → at_or none (map (λ node. some node.counts) nodes) i ≡ some (at_or empty_level1 nodes i).counts
child_of_whole [] i h = absurd (omega arith)
child_of_whole (node ∷ nodes) zero h = refl
child_of_whole (node ∷ nodes) (suc i) h = child_of_whole nodes i (omega arith)

pub tally-le :
    (filing : Filing) (values : List ℕ) (i j : ℕ) → tally filing values i j ≤ length values
tally-le filing [] i j = omega arith
tally-le filing (v ∷ values) i j =
    elim (Bool-cases (is_filed v && (filing.upper v == i && filing.lower v == j))) [
      | inl here ↦ rw here (omega (arith, tally-le filing values i j))
      | inr there ↦ rw there (omega (arith, tally-le filing values i j))
    ]

module _ (filing : Filing) (codes : IsFiling filing) (values : List ℕ) (c : SpecialCounts)
    (doubles : AreDoubles values) (small : length values < 2 ^ 32) where
  unfoldable pub built : TrieNode13
  built = (exec_create_and_insert filing values c).0

  counter_fits : (i j : ℕ) → i < 256 → at_or 0 (at_or empty_level1 built.nodes i).counts j < 2 ^ 32
  unfolding built
  counter_fits i j h = omega (
    arith,
    (exec_create_and_insert-tally filing codes values c doubles small i j h).0,
    tally-le filing values i j,
  )

  built-IsNode : IsNode 256 built.populated built.counts
  unfolding built
  built-IsNode =
      let (shape, words, fits) = exec_create_and_insert-shape filing codes values c doubles small in
      record {
        words = words;
        mask_size = shape.words ∙ omega arith;
        size = shape.counts;
        fits = fits;
        marks = λ j. elim (Bool-cases (ltb j 256)) [
          | inl inside ↦
              (exec_create_and_insert-tally filing codes values c doubles small j 0
                (ground arith)).2
          | inr outside ↦
              test-beyond built.populated j (ground (arith, shape.words))
              ∙ rw (at_or-beyond 0 built.counts j (ground (arith, shape.counts))) refl
        ];
      }

  pub built-IsRoot : IsRoot filing.bins1 (whole built)
  unfolding built
  built-IsRoot =
      let (shape, words, fits) = exec_create_and_insert-shape filing codes values c doubles small in
      record {
        node = built-IsNode;
        children = λ i marked. elim (Bool-cases (ltb i 256)) [
          | inl inside ↦
              let h : i < 256 = ground arith in
              (
                (at_or empty_level1 built.nodes i).counts,
                child_of_whole built.nodes i (omega (arith, shape.nodes)),
                (shape.counters i h, λ j. counter_fits i j h),
              )
          | inr outside ↦
              absurd (
                ground (arith, marked, test-beyond built.populated i (ground (arith, shape.words))))
        ];
      }

  pub counters_fit :
      length values + total_special c < 2 ^ 31
      → AreCounters (exec_create_and_insert filing values c).1
  counters_fit few =
      let total = (exec_create_and_insert-total filing codes values c doubles few).0 in
      record {
        pos_inf = omega (arith, total);
        neg_inf = omega (arith, total);
        pos_zero = omega (arith, total);
        neg_zero = omega (arith, total);
        nan = omega (arith, total);
      }

at_or-le-sum : (counts : List ℕ) (j : ℕ) → at_or 0 counts j ≤ sum counts
at_or-le-sum [] j = omega arith
at_or-le-sum (c ∷ counts) zero = omega arith
at_or-le-sum (c ∷ counts) (suc j) = omega (arith, at_or-le-sum counts j)

-- The counter of a stored trie under two indices; 0 where there is no child.
abbrev pub child_counter : Option (List ℕ) → ℕ → ℕ
child_counter none j = 0
child_counter (some counts) j = at_or 0 counts j

abbrev pub counter : TrieRoot → ℕ → ℕ → ℕ
counter root i j = child_counter (at_or none root.nodes i) j

-- All observations and special values of a header.
abbrev pub all_values : AirTreeHeader → ℕ
all_values h =
    h.trie_count
    + (h.pos_inf_count + h.neg_inf_count + h.pos_zero_count + h.neg_zero_count + h.nan_count)

module _ (filing : Filing) (codes : IsFiling filing) (values : List ℕ) (i j : ℕ)
    (doubles : AreDoubles values) (small : length values < 2 ^ 32) (hi : i < 256) where
  unfoldable pub root : TrieNode13
  root = (exec_create_and_insert filing values no_special).0

  -- The counter that is read, where the children of the populated bins are.
  pub counter_read :
      (read : TrieRoot)
      → at_or none read.nodes i
        ≡ (if test root.populated i then at_or none (whole root).nodes i else none)
      → counter read i j ≡ tally filing values i j
  unfolding root
  counter_read read e =
      let (tallied, summed, marked) =
        exec_create_and_insert-tally filing codes values no_special doubles small i j hi in
      let (shape, words, fits) =
        exec_create_and_insert-shape filing codes values no_special doubles small in
      elim (Bool-cases (test root.populated i)) [
        | inl here ↦ rw (e, here, child_of_whole root.nodes i (omega (arith, shape.nodes))) tallied
        | inr there ↦
            let empty : at_or 0 root.counts i ≡ 0 = ground (arith, marked, there) in
            rw (e, there)
              (omega (
                arith,
                tallied,
                summed,
                empty,
                at_or-le-sum (at_or empty_level1 root.nodes i).counts j,
              ))
      ]

-- For an array of doubles, of a length that an `int` holds, the trie is generated, and processing the buffer
-- gives a header and a trie. The counter of the trie under two indices, the first below 256, is the number
-- of the values that are not special and whose code of 13 bits has these indices; all counters of the header
-- together are as many as the values.
pub process_buffer_1dxt-generate_1dxt :
    (values : List ℕ) (i j : ℕ)
    → AreDoubles values
    → length values < 2 ^ 31
    → i < 256
    → (buffer : List ℕ) × (generate_1dxt values ≡ ok (some buffer))
      × (read : TrieRoot) × (h : AirTreeHeader) × (process_buffer_1dxt buffer ≡ ok (some read, h))
      × (counter read i j ≡ tally filing_13 values i j)
      × (all_values h ≡ length values)
unfolding generate_1dxt built root
process_buffer_1dxt-generate_1dxt values i j doubles short hi =
    let small : length values < 2 ^ 32 = omega arith in
    let (trie, special) = exec_create_and_insert filing_13 values no_special in
    let (buffer, written, read, processed, recovered) =
      process_buffer_1dxt-exec_serialization_13 (whole trie) special
        (counters_fit filing_13 filing_13-IsFiling values no_special doubles small (omega arith))
        (built-IsRoot filing_13 filing_13-IsFiling values no_special doubles small) in
    (
      buffer,
      written,
      read,
      header_of config_1d_tiny (whole trie) special (length buffer - 49),
      processed,
      counter_read filing_13 filing_13-IsFiling values i j doubles small hi read (recovered.2 i),
      (exec_create_and_insert-total filing_13 filing_13-IsFiling values no_special doubles
            (omega arith)).0
          ∙ omega arith,
    )

-- For an array of doubles, of a length that an `int` holds, the trie is generated, and processing the buffer
-- gives a header and a trie. The counter of the trie under two indices, the first below 256, is the number
-- of the values that are not special and whose code of 16 bits has these indices; all counters of the header
-- together are as many as the values.
pub process_buffer_1dxf-generate_1dxf :
    (values : List ℕ) (i j : ℕ)
    → AreDoubles values
    → length values < 2 ^ 31
    → i < 256
    → (buffer : List ℕ) × (generate_1dxf values ≡ ok (some buffer))
      × (read : TrieRoot) × (h : AirTreeHeader) × (process_buffer_1dxf buffer ≡ ok (some read, h))
      × (counter read i j ≡ tally filing_16 values i j)
      × (all_values h ≡ length values)
unfolding generate_1dxf built root
process_buffer_1dxf-generate_1dxf values i j doubles short hi =
    let small : length values < 2 ^ 32 = omega arith in
    let (trie, special) = exec_create_and_insert filing_16 values no_special in
    let (buffer, written, read, processed, recovered) =
      process_buffer_1dxf-exec_serialization_16 (whole trie) special
        (counters_fit filing_16 filing_16-IsFiling values no_special doubles small (omega arith))
        (built-IsRoot filing_16 filing_16-IsFiling values no_special doubles small) in
    (
      buffer,
      written,
      read,
      header_of config_1d_fast (whole trie) special (length buffer - 49),
      processed,
      counter_read filing_16 filing_16-IsFiling values i j doubles small hi read (recovered.2 i),
      (exec_create_and_insert-total filing_16 filing_16-IsFiling values no_special doubles
            (omega arith)).0
          ∙ omega arith,
    )
