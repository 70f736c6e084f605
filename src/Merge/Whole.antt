-- ===== src/Merge/Whole.antt =====
-- The merge of stored tries is the stored merge of the tries.
use mathlib.Core.List.{append_assoc}
use air_tree.Common.{
  ℕ, ◌+◌, ◌^◌, ◌<◌, ◌≡◌, ◌∙◌, refl, ap, arith, true, Bool-cases, inl, inr, ◌==◌, List, [], ◌∷◌,
  ◌++◌, length, length-append, at_or, replicate, length-replicate, at_or-replicate, some,
}
use air_tree.Mask.{mask_words}
use air_tree.Populated.{test}
use air_tree.SetBits.{set_bits}
use air_tree.SetBits.Member.{mem, mem-set_bits}
use air_tree.SetBits.Order.{
  Ascends, Ascends-unique, filter, mem-filter, filter-Ascends, set_bits-Ascends,
}
use air_tree.Node.RoundTrip.{IsNode}
use air_tree.Merge.{Gathered, merge_node, copy_subtree, merge_subtree}
use air_tree.Merge.Trees.{
  Tree, node_bytes, encode, encode_all, total, tabulate_from, union_all, merge_trees, NoOverflow,
}
use air_tree.Merge.Placed.{Placed, first-Placed, later-Placed}
use air_tree.Merge.Skip.{node_bytes-IsBytes}
use air_tree.Merge.Gather.{Ready, gather-Result}
use air_tree.Merge.Sums.{AreNodes, sums_unique, merged-IsNode, merged-covers}
use air_tree.Merge.Refine.{Standing, Moved, Grows, copy-Grows}
use air_tree.Merge.Children.{has_child-test, parts, merge_children-Grows}

module _ (bins : ℕ) (buffers : List (List ℕ)) (masks counts : ℕ → List ℕ) where
  -- The inputs stand before their nodes.
  abbrev AtNodes : List ℕ → List ℕ → Type 0
  AtNodes ks offsets =
      (k : ℕ)
      → mem k ks ≡ true
      → (k < length offsets)
        × (k < length buffers)
        × IsNode bins (masks k) (counts k)
        × Placed (at_or [] buffers k) (at_or 0 offsets k) (node_bytes bins (masks k) (counts k))

  nodes_of : (ks offsets : List ℕ) → AtNodes ks offsets → AreNodes bins masks counts ks
  nodes_of [] offsets at = tt
  nodes_of (k ∷ ks) offsets at =
      let here : (k == k) ≡ true = ground arith in
      ((at k (rw here refl)).2, nodes_of ks offsets (λ j h. at j (rw h (ground arith))))

  abbrev start : List ℕ → Gathered
  start offsets = record {
    offsets = offsets;
    masks = replicate (length buffers) (replicate (mask_words bins) 0);
    merged = replicate (mask_words bins) 0;
    acc = replicate bins 0;
    tmp = replicate bins 0;
  }

  start-Ready :
      (ks offsets : List ℕ)
      → AtNodes ks offsets
      → Ready bins buffers masks counts ks (start offsets)
  start-Ready [] offsets at = tt
  start-Ready (k ∷ ks) offsets at =
      let here : (k == k) ≡ true = ground arith in
      let (in_offsets, in_buffers, node, placed) = at k (rw here refl) in
      let rows : length (replicate (length buffers) (replicate {A = ℕ} (mask_words bins) 0))
          ≡ length buffers =
        length-replicate (length buffers) (replicate {A = ℕ} (mask_words bins) 0) in
      (
        (in_offsets, rw rows in_buffers, node, placed),
        start-Ready ks offsets (λ j h. at j (rw h (ground arith))),
      )

  merge_node-Grows :
      (ks offsets out : List ℕ)
      → Ascends 0 ks
      → AtNodes ks offsets
      → ((i : ℕ) → total (λ k. at_or 0 (counts k) i) ks < 2 ^ 32)
      → let mask : List ℕ = union_all (replicate (mask_words bins) 0) masks ks in
        let sums : List ℕ = tabulate_from bins 0 (λ i. total (λ k. at_or 0 (counts k) i) ks) in
        (g : Gathered) × (merge_node bins buffers ks offsets out
          ≡ some (g, out ++ node_bytes bins mask sums))
        × (g.merged ≡ mask)
        × ((k : ℕ) → mem k ks ≡ true → at_or [] g.masks k ≡ masks k)
        × Moved ks (λ k. node_bytes bins (masks k) (counts k)) offsets g.offsets
  unfolding merge_node
  merge_node-Grows ks offsets out up at small =
      let nodes = nodes_of ks offsets at in
      let zero_size : length (replicate {A = ℕ} bins 0) ≡ bins = length-replicate bins 0 in
      let sum_at : ℕ → ℕ = λ i. total (λ k. at_or 0 (counts k) i) ks in
      let from_zero : (i : ℕ) → at_or 0 (replicate {A = ℕ} bins 0) i + sum_at i ≡ sum_at i =
        λ i. rw (at_or-replicate {A = ℕ} 0 bins i) (omega arith) in
      let (g, e, r) =
        gather-Result bins buffers masks counts 0 ks (start offsets) up (start-Ready ks offsets at)
          zero_size zero_size (λ i. rw (from_zero i) (small i)) in
      let sums : List ℕ = tabulate_from bins 0 sum_at in
      let acc : g.acc ≡ sums =
        sums_unique bins masks counts ks g.acc nodes (r.acc_size ∙ zero_size)
          (λ i. r.acc i ∙ from_zero i) in
      let written =
        (node_bytes-IsBytes bins (union_all (replicate (mask_words bins) 0) masks ks) sums
            (merged-IsNode bins masks counts ks nodes small)).written
          out in
      (
        g,
        rw (e, r.merged, acc, written) refl,
        r.merged,
        λ k h. r.mask k ∙ rw h refl,
        (r.offsets_size, r.offset),
      )

copy_case :
    (bins : ℕ) (deeper : List ℕ) (buffers : List (List ℕ)) (ks : List ℕ)
    (t : ℕ → Tree (bins ∷ deeper)) (offsets out : List ℕ)
    → (length ks == 1) ≡ true
    → Standing (bins ∷ deeper) buffers ks t offsets
    → Grows ks
        (λ j. encode (bins ∷ deeper) (t j))
        (encode (bins ∷ deeper) (t (at_or 0 ks 0)))
        offsets
        out
        (copy_subtree (bins ∷ deeper) buffers (at_or 0 ks 0) offsets out)
copy_case bins deeper buffers [] t offsets out one standing = absurd (ground arith)
copy_case bins deeper buffers (k ∷ []) t offsets out one standing =
    copy-Grows bins deeper buffers k t offsets out standing
copy_case bins deeper buffers (k ∷ l ∷ ks) t offsets out one standing = absurd (ground arith)

-- The bins of an input among those of the merged root.
children_in_order :
    (bins : ℕ) (masks counts : ℕ → List ℕ) (ks : List ℕ) (k : ℕ)
    → AreNodes bins masks counts ks
    → ((i : ℕ) → total (λ l. at_or 0 (counts l) i) ks < 2 ^ 32)
    → mem k ks ≡ true
    → IsNode bins (masks k) (counts k)
    → filter
        (λ i. test (masks k) i)
        (set_bits (union_all (replicate (mask_words bins) 0) masks ks) bins)
      ≡ set_bits (masks k) bins
children_in_order bins masks counts ks k nodes small h node =
    let merged : List ℕ = union_all (replicate (mask_words bins) 0) masks ks in
    let whole = merged-IsNode bins masks counts ks nodes small in
    Ascends-unique 0 0 (filter (λ i. test (masks k) i) (set_bits merged bins))
      (set_bits (masks k) bins)
      (filter-Ascends (λ i. test (masks k) i) 0 (set_bits merged bins)
        (set_bits-Ascends merged bins whole.words))
      (set_bits-Ascends (masks k) bins node.words)
      (λ j.
        mem-filter (λ i. test (masks k) i) j (set_bits merged bins)
        ∙ rw
            (
              mem-set_bits merged bins j whole.words whole.mask_size,
              mem-set_bits (masks k) bins j node.words node.mask_size,
            )
            (merged-covers bins masks counts ks j k nodes h))

-- The inputs' cursors stand before their tries, which are well formed, their bytes in their buffers, and no
-- sum of counts passes a `uint32_t`: the merge succeeds, puts out the bytes of the merged trie, and moves the
-- cursors of the inputs behind their tries and no other.
pub merge_subtree-Grows :
    (bins : ℕ) (deeper : List ℕ) (buffers : List (List ℕ)) (ks : List ℕ)
    (t : ℕ → Tree (bins ∷ deeper)) (offsets out : List ℕ)
    → Ascends 0 ks
    → Standing (bins ∷ deeper) buffers ks t offsets
    → NoOverflow (bins ∷ deeper) ks t
    → Grows ks
        (λ j. encode (bins ∷ deeper) (t j))
        (encode (bins ∷ deeper) (merge_trees (bins ∷ deeper) ks t))
        offsets
        out
        (merge_subtree (bins ∷ deeper) buffers ks offsets out)
unfolding merge_subtree merge_trees encode
merge_subtree-Grows bins [] buffers ks t offsets out up standing small =
    elim (Bool-cases (length ks == 1)) [
      | inl one ↦ rw one (copy_case bins [] buffers ks t offsets out one standing)
      | inr several ↦
          let (g, e, merged, kept, moved) =
            merge_node-Grows bins buffers (λ k. (t k).0) (λ k. (t k).1) ks offsets out up
              (λ k h.
                let (in_offsets, in_buffers, tree, placed) = standing k h in
                (in_offsets, in_buffers, tree.0, placed))
              small.0 in
          rw several (g.offsets, rw e refl, moved)
    ]
merge_subtree-Grows bins (next ∷ deeper) buffers ks t offsets out up standing small =
    elim (Bool-cases (length ks == 1)) [
      | inl one ↦ rw one (copy_case bins (next ∷ deeper) buffers ks t offsets out one standing)
      | inr several ↦
          let bits : ℕ → List ℕ = λ k. (t k).0 in
          let counts : ℕ → List ℕ = λ k. (t k).1 in
          let below : ℕ → ℕ → Tree (next ∷ deeper) = λ k i. (t k).2 i in
          let top : ℕ → List ℕ = λ k. node_bytes bins (bits k) (counts k) in
          let later : ℕ → List ℕ =
            λ k. encode_all (λ i. encode (next ∷ deeper) (below k i)) (set_bits (bits k) bins) in
          let at : AtNodes bins buffers bits counts ks offsets = λ k h.
            let (in_offsets, in_buffers, tree, placed) = standing k h in
            (
              in_offsets,
              in_buffers,
              tree.0,
              first-Placed (at_or [] buffers k) (at_or 0 offsets k) (top k) (later k) placed,
            ) in
          let merged : List ℕ = union_all (replicate (mask_words bins) 0) bits ks in
          let nodes = nodes_of bins buffers bits counts ks offsets at in
          let (g, e, gathered, kept, moved) =
            merge_node-Grows bins buffers bits counts ks offsets out up at small.0 in
          let order : (k : ℕ)
              → mem k ks ≡ true
              → parts next deeper buffers g.masks ks bits below (set_bits merged bins) k ≡ later k =
            λ k h.
              ap (λ (l : List ℕ). encode_all (λ i. encode (next ∷ deeper) (below k i)) l)
                (children_in_order bins bits counts ks k nodes small.0 h (at k h).2) in
          let (after, e', moved') =
            merge_children-Grows next deeper buffers g.masks ks bits below (set_bits merged bins)
              g.offsets
              (out
                ++ node_bytes bins merged
                    (tabulate_from bins 0 (λ i. total (λ k. at_or 0 (counts k) i) ks)))
              (λ i k h. has_child-test g.masks i k ∙ ap (λ (m : List ℕ). test m i) (kept k h))
              (λ i h offsets' out' standing'.
                merge_subtree-Grows next deeper buffers (filter (λ k. test (bits k) i) ks)
                  (λ k. below k i) offsets' out' (filter-Ascends (λ k. test (bits k) i) 0 ks up)
                  standing' (small.1 i))
              (λ k h.
                let (in_offsets, in_buffers, tree, placed) = standing k h in
                let there : at_or 0 g.offsets k ≡ at_or 0 offsets k + length (top k) =
                  moved.1 k ∙ rw h refl in
                (
                  rw moved.0 in_offsets,
                  in_buffers,
                  tree.1,
                  rw (there, order k h)
                      (later-Placed (at_or [] buffers k) (at_or 0 offsets k) (top k) (later k)
                        placed),
                )) in
          rw several (
            after,
            rw (e, gathered) (e' ∙ ap (λ (b : List ℕ). some (after, b)) (append_assoc out _ _)),
            (
              moved'.0 ∙ moved.0,
              λ j.
                  moved'.1 j
                  ∙ rw (moved.1 j) (elim (Bool-cases (mem j ks)) [
                    | inl within ↦
                        rw (within, order j within) (omega (arith, length-append (top j) (later j)))
                    | inr without ↦ rw without refl
                  ]),
            ),
          )
    ]
