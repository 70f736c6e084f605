-- ===== src/Wire1d/Tests.antt =====
-- The theorems on stored tries at concrete tries.
use air_tree.Common.{
  ℕ, ◌-◌, ◌^◌, ◌<◌, ◌≡◌, ◌∙◌, refl, arith, ◌==◌, List, [], ◌∷◌, length, at_or, modify, replicate,
  at_or-modify, at_or-replicate, Option, some, none, if◌then◌else◌, ◌||◌,
}
use air_tree.Config.{config_1d_tiny}
use air_tree.Header.Bytes.{ok}
use air_tree.Header.{AirTreeHeader}
use air_tree.Populated.{set, test, empty_bins}
use air_tree.Populated.Laws.{test-set, test-empty_bins, set-AreWords, empty_bins-AreWords}
use air_tree.Trie1d.{filing_13, filing_16}
use air_tree.Trie1d.Insert.{tally}
use air_tree.Node.RoundTrip.{IsNode}
use air_tree.Wire1d.{TrieRoot}
use air_tree.Wire1d.RoundTrip.{IsRoot}
use air_tree.Wire1d.Buffer.{
  exec_serialization_13, process_buffer_1dxt, process_buffer_1dxf, generate_1dxt, generate_1dxf,
  no_special,
}
use air_tree.Wire1d.Buffer.Whole.{
  AreCounters, Recovers, header_of, process_buffer_1dxt-exec_serialization_13,
}
use air_tree.Wire1d.Generated.{
  counter, all_values, process_buffer_1dxt-generate_1dxt, process_buffer_1dxf-generate_1dxf,
}

-- 5.0, a NaN, -1.0 and 5.0 again.
abbrev array : List ℕ
array = 0x4014000000000000 ∷ 0x7FF8000000000000 ∷ 0xBFF0000000000000 ∷ 0x4014000000000000 ∷ []

process_buffer_1dxt-generate_1dxt_example :
    (buffer : List ℕ) × (generate_1dxt array ≡ ok (some buffer))
    × (read : TrieRoot) × (h : AirTreeHeader) × (process_buffer_1dxt buffer ≡ ok (some read, h))
    × (counter read 32 16 ≡ tally filing_13 array 32 16)
    × (all_values h ≡ 4)
process_buffer_1dxt-generate_1dxt_example =
    process_buffer_1dxt-generate_1dxt array 32 16 (omega arith) (omega arith) (omega arith)

process_buffer_1dxf-generate_1dxf_example :
    (buffer : List ℕ) × (generate_1dxf array ≡ ok (some buffer))
    × (read : TrieRoot) × (h : AirTreeHeader) × (process_buffer_1dxf buffer ≡ ok (some read, h))
    × (counter read 32 128 ≡ tally filing_16 array 32 128)
    × (all_values h ≡ 4)
process_buffer_1dxf-generate_1dxf_example =
    process_buffer_1dxf-generate_1dxf array 32 128 (omega arith) (omega arith) (omega arith)

-- Counters of `n` bins, all 0 but that of bin 5.
abbrev five : ℕ → List ℕ
five n = modify 5 (λ c. 3) (replicate n 0)

abbrev children : ℕ → List (Option (List ℕ))
children n = modify 5 (λ child. some (five n)) (replicate 256 none)

abbrev sample : ℕ → TrieRoot
sample n = record { populated = set 5 (empty_bins 256); nodes = children n; counts = five 256 }

at_or-five :
    (n j : ℕ) → 5 < length (replicate {A = ℕ} n 0) → at_or 0 (five n) j ≡ (if 5 == j then 3 else 0)
at_or-five n j h =
    at_or-modify 0 5 (λ c. 3) (replicate n 0) j h ∙ rw (at_or-replicate {A = ℕ} 0 n j) refl

five_fits : (n j : ℕ) → 5 < length (replicate {A = ℕ} n 0) → at_or 0 (five n) j < 2 ^ 32
five_fits n j h = rw (at_or-five n j h) (ground arith)

sample_marks : (j : ℕ) → test (set 5 (empty_bins 256)) j ≡ ((5 == j) || test (empty_bins 256) j)
unfolding empty_bins
sample_marks j = (test-set (empty_bins 256) 5 j (omega arith)).0

sample-IsNode : IsNode 256 (set 5 (empty_bins 256)) (five 256)
unfolding empty_bins
sample-IsNode = record {
  words = set-AreWords 5 (empty_bins 256) (empty_bins-AreWords 256);
  mask_size = (test-set (empty_bins 256) 5 0 (omega arith)).1;
  size = refl;
  fits = λ j. five_fits 256 j (omega arith);
  marks = λ j.
      sample_marks j ∙ rw (test-empty_bins 256 j, at_or-five 256 j (omega arith)) (ground arith);
}

module _ (n : ℕ) (size : length (five n) ≡ n) (long : 5 < length (replicate {A = ℕ} n 0)) where
  sample-IsRoot : IsRoot n (sample n)
  sample-IsRoot = record {
    node = sample-IsNode;
    children = λ i marked.
        let here : i ≡ 5 = ground (arith, sample_marks i, test-empty_bins 256 i, marked) in
        (five n, rw here refl, (size, λ j. five_fits n j long));
  }

no_special-AreCounters : AreCounters no_special
no_special-AreCounters = record {
  pos_inf = omega arith;
  neg_inf = omega arith;
  pos_zero = omega arith;
  neg_zero = omega arith;
  nan = omega arith;
}

process_buffer_1dxt-exec_serialization_13_example :
    (buffer : List ℕ) × (exec_serialization_13 (sample 32) no_special ≡ ok (some buffer))
    × (read : TrieRoot) × (process_buffer_1dxt buffer
        ≡ ok (some read, header_of config_1d_tiny (sample 32) no_special (length buffer - 49)))
    × Recovers (sample 32) read
process_buffer_1dxt-exec_serialization_13_example =
    process_buffer_1dxt-exec_serialization_13 (sample 32) no_special no_special-AreCounters
      (sample-IsRoot 32 refl (omega arith))
