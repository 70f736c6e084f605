-- ===== src/Trie1d/RollUp.antt =====
-- `rollUpCounts`: each counter of the root is the sum of its child's, and its bin is populated where
-- this is not 0.
use air_tree.Common.{
  ℕ, zero, suc, ◌+◌, ◌%◌, ◌^◌, ◌<◌, ◌≤◌, ◌≡◌, ◌∙◌, refl, arith, Bool, not, ◌&&◌, ◌||◌, ◌==◌, leb,
  ltb, if◌then◌else◌, at_or, length, at_or-modify, length-modify, Bool-cases, inl, inr,
}
use air_tree.Populated.{test}
use air_tree.Populated.Laws.{test-set, set-AreWords}
use air_tree.Mask.RoundTrip.{AreWords}
use air_tree.Trie1d.Bump.{sum, add_counts-mod}
use air_tree.Trie1d.{
  TrieNode13, empty_level1, add_counts, roll_up_one, roll_up_loop, roll_up_counts,
}

-- The counter that bin `i` of the root is to get: the sum of the child's counters, as a `uint32_t`.
abbrev pub child_total : TrieNode13 → ℕ → ℕ
child_total root i = sum (at_or empty_level1 root.nodes i).counts % 2 ^ 32

added-child_total :
    (root : TrieNode13) (i : ℕ)
    → add_counts (at_or empty_level1 root.nodes i).counts 0 ≡ child_total root i
added-child_total root i =
    add_counts-mod (at_or empty_level1 root.nodes i).counts 0 (omega arith) ∙ omega arith

abbrev between : ℕ → ℕ → ℕ → Bool
between i n k = leb i k && ltb k (i + n)

record IsRoot (root : TrieNode13) : Type 0 where
  counts : length root.counts ≡ 256
  words : length root.populated ≡ 4

module _ (root : TrieNode13) (i : ℕ) (shape : IsRoot root) (h : i < 256) where
  one-test :
      (k : ℕ)
      → (test (roll_up_one i root).populated k
          ≡ ((i == k && not (child_total root i == 0)) || test root.populated k))
        × (length (roll_up_one i root).populated ≡ length root.populated)
  unfolding roll_up_one
  one-test k =
      let here = test-set root.populated i k (omega (arith, shape.words)) in
      elim (Bool-cases (not (child_total root i == 0))) [
        | inl some ↦ rw (added-child_total root i, some) (here.0 ∙ ground arith, here.1)
        | inr none ↦ rw (added-child_total root i, none) (ground arith, refl)
      ]

  one-counts :
      (k : ℕ)
      → at_or 0 (roll_up_one i root).counts k
        ≡ (if i == k then child_total root i else at_or 0 root.counts k)
  unfolding roll_up_one
  one-counts k =
      rw (← added-child_total root i)
        (at_or-modify 0 i _ root.counts k (omega (arith, shape.counts)))

  one-IsRoot : IsRoot (roll_up_one i root)
  unfolding roll_up_one
  one-IsRoot = record {
    counts = length-modify i _ root.counts ∙ shape.counts;
    words = (one-test 0).1 ∙ shape.words;
  }

  one-child_total : (k : ℕ) → child_total (roll_up_one i root) k ≡ child_total root k
  unfolding roll_up_one
  one-child_total k = refl

one-AreWords :
    (root : TrieNode13) (i : ℕ) → AreWords root.populated → AreWords (roll_up_one i root).populated
unfolding roll_up_one
one-AreWords root i h = elim (Bool-cases (not (child_total root i == 0))) [
  | inl some ↦ rw (added-child_total root i, some) (set-AreWords i root.populated h)
  | inr none ↦ rw (added-child_total root i, none) h
]

loop-counts :
    (n i : ℕ) (root : TrieNode13) (k : ℕ)
    → i + n ≤ 256
    → IsRoot root
    → at_or 0 (roll_up_loop n i root).counts k
      ≡ (if between i n k then child_total root k else at_or 0 root.counts k)
unfolding roll_up_loop
loop-counts zero i root k h shape = ground arith
loop-counts (suc n) i root k h shape =
    loop-counts n (suc i) (roll_up_one i root) k (omega arith)
      (one-IsRoot root i shape (omega arith))
    ∙ ground (
      arith,
      one-counts root i shape (omega arith) k,
      one-child_total root i shape (omega arith) k,
    )

loop-test :
    (n i : ℕ) (root : TrieNode13) (k : ℕ)
    → i + n ≤ 256
    → IsRoot root
    → test (roll_up_loop n i root).populated k
      ≡ ((between i n k && not (child_total root k == 0)) || test root.populated k)
unfolding roll_up_loop
loop-test zero i root k h shape = ground arith
loop-test (suc n) i root k h shape =
    loop-test n (suc i) (roll_up_one i root) k (omega arith) (one-IsRoot root i shape (omega arith))
    ∙ ground
        (arith, one-test root i shape (omega arith) k, one-child_total root i shape (omega arith) k)

loop-nodes : (n i : ℕ) (root : TrieNode13) → (roll_up_loop n i root).nodes ≡ root.nodes
unfolding roll_up_loop roll_up_one
loop-nodes zero i root = refl
loop-nodes (suc n) i root = loop-nodes n (suc i) (roll_up_one i root)

loop-length :
    (n i : ℕ) (root : TrieNode13)
    → i + n ≤ 256
    → IsRoot root
    → length (roll_up_loop n i root).counts ≡ 256
unfolding roll_up_loop
loop-length zero i root h shape = shape.counts
loop-length (suc n) i root h shape =
    loop-length n (suc i) (roll_up_one i root) (omega arith) (one-IsRoot root i shape (omega arith))

loop-populated :
    (n i : ℕ) (root : TrieNode13)
    → i + n ≤ 256
    → IsRoot root
    → AreWords root.populated
    → (length (roll_up_loop n i root).populated ≡ 4) × AreWords (roll_up_loop n i root).populated
unfolding roll_up_loop
loop-populated zero i root h shape words = (shape.words, words)
loop-populated (suc n) i root h shape words =
    loop-populated n (suc i) (roll_up_one i root) (omega arith)
      (one-IsRoot root i shape (omega arith)) (one-AreWords root i words)

-- The populated bins are still four words.
pub roll_up_counts-populated :
    (root : TrieNode13)
    → length root.counts ≡ 256
    → length root.populated ≡ 4
    → AreWords root.populated
    → (length (roll_up_counts root).populated ≡ 4) × AreWords (roll_up_counts root).populated
unfolding roll_up_counts
roll_up_counts-populated root counts words h =
    loop-populated 256 0 root (omega arith) (record { counts = counts; words = words }) h

-- After the roll-up of a root with 256 counters and bins, counter `k` is the 32-bit sum of the
-- counters of child `k`, bin `k` is populated exactly if it was or this sum is not 0, and the children
-- and the number of counters are the same.
pub roll_up_counts_lem :
    (root : TrieNode13) (k : ℕ)
    → length root.counts ≡ 256
    → length root.populated ≡ 4
    → k < 256
    → (at_or 0 (roll_up_counts root).counts k ≡ child_total root k)
      × (test (roll_up_counts root).populated k
          ≡ (not (child_total root k == 0) || test root.populated k))
      × ((roll_up_counts root).nodes ≡ root.nodes)
      × (length (roll_up_counts root).counts ≡ 256)
unfolding roll_up_counts
roll_up_counts_lem root k counts words h =
    let shape : IsRoot root = record { counts = counts; words = words } in
    (
      loop-counts 256 0 root k (omega arith) shape ∙ ground arith,
      loop-test 256 0 root k (omega arith) shape ∙ ground arith,
      loop-nodes 256 0 root,
      loop-length 256 0 root (omega arith) shape,
    )
