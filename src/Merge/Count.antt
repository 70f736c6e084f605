-- ===== src/Merge/Count.antt =====
-- The merge of tries adds their counts.
use air_tree.Common.{
  ℕ, ◌≡◌, ◌∙◌, refl, sym, arith, true, false, Bool, Bool-cases, inl, inr, ◌&&◌, ◌==◌, if◌then◌else◌,
  List, [], ◌∷◌, AreBytes, AreBytes-append, length, at_or,
}
use air_tree.Populated.{test}
use air_tree.SetBits.Member.{mem, mem-set_bits}
use air_tree.SetBits.{set_bits}
use air_tree.SetBits.Order.{filter, mem-filter}
use air_tree.Merge.Trees.{
  node_bytes, encode, encode_all, NoOverflow, Tree, IsTree, total, merge_trees, count_under,
}
use air_tree.Merge.Skip.{node_bytes-IsBytes}
use air_tree.Merge.Sums.{merged-IsNode, AreNodes, any, at_or-sums, test-merged}

-- The inputs have well-formed tries.
abbrev pub AreTrees : (levels ks : List ℕ) → (ℕ → Tree levels) → Type 0
AreTrees levels ks t = (k : ℕ) → mem k ks ≡ true → IsTree levels (t k)

nodes_of_trees :
    (bins : ℕ) (deeper ks : List ℕ) (t : ℕ → Tree (bins ∷ deeper))
    → AreTrees (bins ∷ deeper) ks t
    → AreNodes bins (λ k. (t k).0) (λ k. (t k).1) ks
nodes_of_trees bins deeper [] t trees = tt
nodes_of_trees bins deeper (k ∷ ks) t trees =
    let here : (k == k) ≡ true = ground arith in
    (
      (trees k (rw here refl)).0,
      nodes_of_trees bins deeper ks t (λ j h. trees j (rw h (ground arith))),
    )

total-filter :
    (p : ℕ → Bool) (f : ℕ → ℕ) (ks : List ℕ)
    → total f (filter p ks) ≡ total (λ k. if p k then f k else 0) ks
total-filter p f [] = refl
total-filter p f (k ∷ ks) = elim (Bool-cases (p k)) [
  | inl kept ↦ rw (kept, total-filter p f ks) refl
  | inr dropped ↦ rw (dropped, total-filter p f ks) (omega arith)
]

total-zeros : (ks : List ℕ) → 0 ≡ total (λ k. 0) ks
total-zeros [] = refl
total-zeros (k ∷ ks) = omega (arith, total-zeros ks)

total-none :
    (p : ℕ → Bool) (f : ℕ → ℕ) (ks : List ℕ)
    → any p ks ≡ false
    → total (λ k. if p k then f k else 0) ks ≡ 0
total-none p f [] h = refl
total-none p f (k ∷ ks) h =
    let first : p k ≡ false = ground (arith, h) in
    let others : any p ks ≡ false = ground (arith, h) in
    rw (first, total-none p f ks others) (omega arith)

single_total : (f : ℕ → ℕ) (ks : List ℕ) → (length ks == 1) ≡ true → f (at_or 0 ks 0) ≡ total f ks
single_total f [] one = absurd (ground arith)
single_total f (k ∷ []) one = omega arith
single_total f (k ∷ l ∷ ks) one = absurd (ground arith)

-- Under any path, the count of the merged trie is the sum of the counts that the tries have there: a
-- merged trie, as what it counts, is the sum of the tries. The tries are well formed.
pub count_under-merge_trees :
    (levels : List ℕ) (ks : List ℕ) (t : ℕ → Tree levels) (path : List ℕ)
    → AreTrees levels ks t
    → count_under levels (merge_trees levels ks t) path
      ≡ total (λ k. count_under levels (t k) path) ks
unfolding count_under merge_trees
count_under-merge_trees [] ks t path trees = total-zeros ks
count_under-merge_trees (bins ∷ deeper) ks t [] trees = total-zeros ks
count_under-merge_trees (bins ∷ deeper) ks t (i ∷ []) trees = elim (Bool-cases (length ks == 1)) [
  | inl one ↦ rw one (single_total (λ k. at_or 0 (t k).1 i) ks one)
  | inr several ↦
      rw several
        (at_or-sums bins (λ k. (t k).0) (λ k. (t k).1) ks i (nodes_of_trees bins deeper ks t trees))
]
count_under-merge_trees (bins ∷ deeper) ks t (i ∷ j ∷ path) trees =
    let bits : ℕ → List ℕ = λ k. (t k).0 in
    let under : ℕ → ℕ = λ k. count_under deeper ((t k).2 i) (j ∷ path) in
    elim (Bool-cases (length ks == 1)) [
      | inl one ↦ rw one (single_total (λ k. if test (bits k) i then under k else 0) ks one)
      | inr several ↦
          let having : List ℕ = filter (λ k. test (bits k) i) ks in
          let below : count_under deeper (merge_trees deeper having (λ k. (t k).2 i)) (j ∷ path)
              ≡ total under having =
            count_under-merge_trees deeper having (λ k. (t k).2 i) (j ∷ path)
              (λ k h.
                let member : (mem k ks && test (bits k) i) ≡ true =
                  sym (mem-filter (λ l. test (bits l) i) k ks) ∙ h in
                (trees k (ground (arith, member))).1 i (ground (arith, member))) in
          rw
            (
              several,
              test-merged bins bits (λ k. (t k).1) ks i (nodes_of_trees bins deeper ks t trees),
            )
            (elim (Bool-cases (any (λ k. test (bits k) i) ks)) [
              | inl some_have ↦ rw some_have (below ∙ total-filter (λ k. test (bits k) i) under ks)
              | inr none_have ↦
                  rw none_have (sym (total-none (λ k. test (bits k) i) under ks none_have))
            ])
    ]

single_tree :
    (levels ks : List ℕ) (t : ℕ → Tree levels)
    → AreTrees levels ks t
    → (length ks == 1) ≡ true
    → IsTree levels (t (at_or 0 ks 0))
single_tree levels [] t trees one = absurd (ground arith)
single_tree levels (k ∷ []) t trees one =
    let here : (k == k) ≡ true = ground arith in trees k (rw here refl)
single_tree levels (k ∷ l ∷ ks) t trees one = absurd (ground arith)

-- The merge of well-formed tries is well formed, if no sum of counts passes a `uint32_t`.
pub merge_trees-IsTree :
    (levels ks : List ℕ) (t : ℕ → Tree levels)
    → AreTrees levels ks t
    → NoOverflow levels ks t
    → IsTree levels (merge_trees levels ks t)
unfolding merge_trees
merge_trees-IsTree [] ks t trees small = tt
merge_trees-IsTree (bins ∷ deeper) ks t trees small = elim (Bool-cases (length ks == 1)) [
  | inl one ↦ rw one (single_tree (bins ∷ deeper) ks t trees one)
  | inr several ↦ rw several (
    merged-IsNode bins (λ k. (t k).0) (λ k. (t k).1) ks (nodes_of_trees bins deeper ks t trees)
        small.0,
    λ i marked.
        merge_trees-IsTree deeper (filter (λ k. test (t k).0 i) ks) (λ k. (t k).2 i)
          (λ k h.
            let member : (mem k ks && test (t k).0 i) ≡ true =
              sym (mem-filter (λ l. test (t l).0 i) k ks) ∙ h in
            (trees k (ground (arith, member))).1 i (ground (arith, member)))
          (small.1 i),
  )
]

encode_all-AreBytes :
    (f : ℕ → List ℕ) (is : List ℕ)
    → ((i : ℕ) → mem i is ≡ true → AreBytes (f i))
    → AreBytes (encode_all f is)
unfolding encode_all
encode_all-AreBytes f [] each = tt
encode_all-AreBytes f (i ∷ is) each =
    let here : (i == i) ≡ true = ground arith in
    AreBytes-append (f i) (encode_all f is) (each i (rw here refl))
      (encode_all-AreBytes f is (λ j h. each j (rw h (ground arith))))

pub encode-AreBytes :
    (levels : List ℕ) (t : Tree levels) → IsTree levels t → AreBytes (encode levels t)
unfolding encode
encode-AreBytes [] t tree = tt
encode-AreBytes (bins ∷ []) t tree = (node_bytes-IsBytes bins t.0 t.1 tree.0).bytes
encode-AreBytes (bins ∷ next ∷ deeper) t tree =
    AreBytes-append (node_bytes bins t.0 t.1)
      (encode_all (λ i. encode (next ∷ deeper) (t.2 i)) (set_bits t.0 bins))
      (node_bytes-IsBytes bins t.0 t.1 tree.0).bytes
      (encode_all-AreBytes (λ i. encode (next ∷ deeper) (t.2 i)) (set_bits t.0 bins)
        (λ i h.
          encode-AreBytes (next ∷ deeper) (t.2 i)
            (tree.1 i (sym (mem-set_bits t.0 bins i tree.0.words tree.0.mask_size) ∙ h))))
