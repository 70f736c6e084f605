-- ===== src/Merge/Sums.antt =====
-- The root of a merged trie: the bins of all inputs, with the sums of their counts.
use air_tree.Common.{
  ℕ, zero, suc, ◌+◌, ◌^◌, ◌<◌, ◌≤◌, ◌≡◌, ◌∙◌, refl, sym, ap, arith, true, false, Bool, Bool-cases,
  inl, inr, not, ◌&&◌, ◌||◌, ◌==◌, ltb, if◌then◌else◌, List, [], ◌∷◌, length, at_or, at_or-beyond,
  list_ext, replicate, length-replicate, bit_or-lt,
}
use air_tree.Mask.{mask_words}
use air_tree.Mask.RoundTrip.{AreWords}
use air_tree.Populated.{test, union, empty_bins}
use air_tree.Populated.Laws.{test-union, test-empty_bins, empty_bins-AreWords}
use air_tree.SetBits.Member.{mem}
use air_tree.Node.RoundTrip.{IsNode}
use air_tree.Merge.Trees.{total, tabulate_from, union_all}

length-union : (ws os : List ℕ) → length ws ≡ length os → length (union ws os) ≡ length ws
unfolding union
length-union [] os same = refl
length-union (w ∷ ws) [] same = absurd (omega arith)
length-union (w ∷ ws) (o ∷ os) same = ap suc (length-union ws os (omega arith))

union-AreWords : (ws os : List ℕ) → AreWords ws → AreWords os → AreWords (union ws os)
unfolding union
union-AreWords [] os h h' = tt
union-AreWords (w ∷ ws) [] h h' = tt
union-AreWords (w ∷ ws) (o ∷ os) h h' = (bit_or-lt 64 w o h.0 h'.0, union-AreWords ws os h.1 h'.1)

length-tabulate_from : (n base : ℕ) (f : ℕ → ℕ) → length (tabulate_from n base f) ≡ n
length-tabulate_from zero base f = refl
length-tabulate_from (suc n) base f = ap suc (length-tabulate_from n (suc base) f)

at_or-tabulate_from :
    (n base : ℕ) (f : ℕ → ℕ) (j : ℕ)
    → at_or 0 (tabulate_from n base f) j ≡ (if ltb j n then f (base + j) else 0)
at_or-tabulate_from zero base f j = ground arith
at_or-tabulate_from (suc n) base f zero =
    let e : base + 0 ≡ base = omega arith in rw e (ground arith)
at_or-tabulate_from (suc n) base f (suc j) =
    let e : base + suc j ≡ suc base + j = omega arith in
    rw e (at_or-tabulate_from n (suc base) f j ∙ ground arith)

-- Whether an input has the bin.
abbrev pub any : (ℕ → Bool) → List ℕ → Bool
any p [] = false
any p (k ∷ ks) = p k || any p ks

module _ (bins : ℕ) (masks counts : ℕ → List ℕ) where
  -- The inputs have nodes.
  abbrev pub AreNodes : List ℕ → Type 0
  AreNodes [] = Unit {0}
  AreNodes (k ∷ ks) = IsNode bins (masks k) (counts k) × AreNodes ks

  abbrev sum_at : List ℕ → ℕ → ℕ
  sum_at ks i = total (λ k. at_or 0 (counts k) i) ks

  union_all_lem :
      (mask : List ℕ) (ks : List ℕ)
      → length mask ≡ mask_words bins
      → AreWords mask
      → AreNodes ks
      → (length (union_all mask masks ks) ≡ mask_words bins) × AreWords (union_all mask masks ks)
  union_all_lem mask [] size words nodes = (size, words)
  union_all_lem mask (k ∷ ks) size words nodes =
      let same : length mask ≡ length (masks k) = size ∙ sym nodes.0.mask_size in
      union_all_lem (union mask (masks k)) ks (length-union mask (masks k) same ∙ size)
        (union-AreWords mask (masks k) words nodes.0.words) nodes.1

  test-union_all :
      (mask : List ℕ) (ks : List ℕ) (j : ℕ)
      → length mask ≡ mask_words bins
      → AreNodes ks
      → test (union_all mask masks ks) j ≡ (test mask j || any (λ k. test (masks k) j) ks)
  test-union_all mask [] j size nodes = ground arith
  test-union_all mask (k ∷ ks) j size nodes =
      let same : length mask ≡ length (masks k) = size ∙ sym nodes.0.mask_size in
      test-union_all (union mask (masks k)) ks j (length-union mask (masks k) same ∙ size) nodes.1
      ∙ rw (test-union mask (masks k) j same) (ground arith)

  any-total :
      (ks : List ℕ) (j : ℕ) → AreNodes ks → any (λ k. test (masks k) j) ks ≡ not (sum_at ks j == 0)
  any-total [] j nodes = refl
  any-total (k ∷ ks) j nodes = rw (nodes.0.marks j, any-total ks j nodes.1) (ground arith)

  total-beyond : (ks : List ℕ) (j : ℕ) → AreNodes ks → bins ≤ j → sum_at ks j ≡ 0
  total-beyond [] j nodes h = refl
  total-beyond (k ∷ ks) j nodes h = omega (
    arith,
    at_or-beyond 0 (counts k) j (omega (arith, nodes.0.size)),
    total-beyond ks j nodes.1 h,
  )

  pub at_or-sums :
      (ks : List ℕ) (j : ℕ)
      → AreNodes ks
      → at_or 0 (tabulate_from bins 0 (sum_at ks)) j ≡ sum_at ks j
  at_or-sums ks j nodes =
      at_or-tabulate_from bins 0 (sum_at ks) j ∙ elim (Bool-cases (ltb j bins)) [
        | inl inside ↦ let e : 0 + j ≡ j = omega arith in rw (inside, e) refl
        | inr outside ↦ rw outside (sym (total-beyond ks j nodes (ground arith)))
      ]

  -- Counters that are the sums, as a list.
  pub sums_unique :
      (ks acc : List ℕ)
      → AreNodes ks
      → length acc ≡ bins
      → ((i : ℕ) → at_or 0 acc i ≡ sum_at ks i)
      → acc ≡ tabulate_from bins 0 (sum_at ks)
  sums_unique ks acc nodes size each =
      list_ext 0 acc (tabulate_from bins 0 (sum_at ks))
        (size ∙ sym (length-tabulate_from bins 0 (sum_at ks)))
        (λ i h. each i ∙ sym (at_or-sums ks i nodes))

  -- The merged root is a node.
  pub merged-IsNode :
      (ks : List ℕ)
      → AreNodes ks
      → ((i : ℕ) → sum_at ks i < 2 ^ 32)
      → IsNode bins
          (union_all (replicate (mask_words bins) 0) masks ks)
          (tabulate_from bins 0 (sum_at ks))
  unfolding empty_bins
  merged-IsNode ks nodes small =
      let zeros : List ℕ = replicate (mask_words bins) 0 in
      let zero_size : length zeros ≡ mask_words bins = length-replicate (mask_words bins) 0 in
      let (size, words) = union_all_lem zeros ks zero_size (empty_bins-AreWords bins) nodes in
      record {
        words = words;
        mask_size = size;
        size = length-tabulate_from bins 0 (sum_at ks);
        fits = λ j. rw (at_or-sums ks j nodes) (small j);
        marks = λ j.
            test-union_all zeros ks j zero_size nodes
            ∙ rw (test-empty_bins bins j, any-total ks j nodes, at_or-sums ks j nodes) refl;
      }

  any-covers :
      (ks : List ℕ) (j k : ℕ)
      → mem k ks ≡ true
      → (any (λ k. test (masks k) j) ks && test (masks k) j) ≡ test (masks k) j
  any-covers [] j k h = cc
  any-covers (l ∷ ks) j k h = elim (Bool-cases (l == k)) [
    | inl here ↦ let same : l ≡ k = ground arith in rw same (ground arith)
    | inr there ↦
        let later : mem k ks ≡ true = ground (arith, h, there) in
        let rest = any-covers ks j k later in ground (arith, rest)
  ]

  -- The merged root has the bins of each input.
  pub merged-covers :
      (ks : List ℕ) (j k : ℕ)
      → AreNodes ks
      → mem k ks ≡ true
      → (test (union_all (replicate (mask_words bins) 0) masks ks) j && test (masks k) j)
        ≡ test (masks k) j
  unfolding empty_bins
  merged-covers ks j k nodes h =
      rw
        (
          test-union_all (replicate (mask_words bins) 0) ks j (length-replicate (mask_words bins) 0)
              nodes,
          test-empty_bins bins j,
        )
        (any-covers ks j k h)

  -- The merged root has a bin exactly if an input has it.
  pub test-merged :
      (ks : List ℕ) (j : ℕ)
      → AreNodes ks
      → test (union_all (replicate (mask_words bins) 0) masks ks) j ≡ any (λ k. test (masks k) j) ks
  unfolding empty_bins
  test-merged ks j nodes =
      rw
        (
          test-union_all (replicate (mask_words bins) 0) ks j (length-replicate (mask_words bins) 0)
              nodes,
          test-empty_bins bins j,
        )
        refl
