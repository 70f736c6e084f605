-- ===== src/Merge/Children.antt =====
-- The loop over the merged children.
use mathlib.Core.List.{append_assoc, append-nil}
use air_tree.Common.{
  ℕ, ◌+◌, ◌<◌, ◌≡◌, ◌∙◌, refl, sym, ap, arith, true, Bool, Bool-cases, inl, inr, ◌&&◌, ◌==◌,
  if◌then◌else◌, List, [], ◌∷◌, ◌++◌, length, length-append, at_or, some, bit_and_low1,
}
use air_tree.Populated.{test}
use air_tree.Populated.Laws.{test_lem}
use air_tree.SetBits.Member.{mem}
use air_tree.SetBits.Order.{filter, mem-filter}
use air_tree.Merge.{has_child, merge_children, merge_subtree}
use air_tree.Merge.Trees.{Tree, IsTree, encode, encode_all, merge_trees}
use air_tree.Merge.Placed.{Placed, first-Placed, later-Placed}
use air_tree.Merge.Refine.{Standing, Moved, Grows}

filter_cong :
    (p q : ℕ → Bool) (ks : List ℕ)
    → ((k : ℕ) → mem k ks ≡ true → p k ≡ q k)
    → filter p ks ≡ filter q ks
filter_cong p q [] same = refl
filter_cong p q (k ∷ ks) same =
    let here : (k == k) ≡ true = ground arith in
    rw (same k (rw here refl), filter_cong p q ks (λ j h. same j (rw h (ground arith)))) refl

pub has_child-test :
    (masks : List (List ℕ)) (i k : ℕ) → has_child masks i k ≡ test (at_or [] masks k) i
unfolding has_child
has_child-test masks i k = rw (test_lem (at_or [] masks k) i, bit_and_low1 _) refl

module _ (next : ℕ) (deeper : List ℕ) (buffers masks : List (List ℕ)) (ks : List ℕ)
    (bits : ℕ → List ℕ) (t : ℕ → ℕ → Tree (next ∷ deeper)) where
  -- The inputs that have bin `i`, and the bytes that input `k` has for some bins.
  abbrev pub having : ℕ → List ℕ
  having i = filter (λ k. test (bits k) i) ks

  abbrev pub parts : List ℕ → ℕ → List ℕ
  parts is k = encode_all (λ i. encode (next ∷ deeper) (t k i)) (filter (λ i. test (bits k) i) is)

  abbrev pub merged_child : ℕ → List ℕ
  merged_child i = encode (next ∷ deeper) (merge_trees (next ∷ deeper) (having i) (λ k. t k i))

  -- The cursors stand before what is left of the children.
  abbrev Before : List ℕ → List ℕ → Type 0
  Before is offsets =
      (k : ℕ)
      → mem k ks ≡ true
      → (k < length offsets)
        × (k < length buffers)
        × ((i : ℕ) → test (bits k) i ≡ true → IsTree (next ∷ deeper) (t k i))
        × Placed (at_or [] buffers k) (at_or 0 offsets k) (parts is k)

  -- What a merge of one child does.
  abbrev Child : ℕ → Type 0
  Child i =
      (offsets out : List ℕ)
      → Standing (next ∷ deeper) buffers (having i) (λ k. t k i) offsets
      → Grows (having i) (λ k. encode (next ∷ deeper) (t k i)) (merged_child i) offsets out
          (merge_subtree (next ∷ deeper) buffers (having i) offsets out)

  Standing-child :
      (i : ℕ) (is offsets : List ℕ)
      → Before (i ∷ is) offsets
      → Standing (next ∷ deeper) buffers (having i) (λ k. t k i) offsets
  unfolding encode_all
  Standing-child i is offsets before k h =
      let member : (mem k ks && test (bits k) i) ≡ true =
        sym (mem-filter (λ l. test (bits l) i) k ks) ∙ h in
      let in_ks : mem k ks ≡ true = ground (arith, member) in
      let has : test (bits k) i ≡ true = ground (arith, member) in
      let (in_offsets, in_buffers, trees, placed) = before k in_ks in
      (
        in_offsets,
        in_buffers,
        trees i has,
        first-Placed (at_or [] buffers k) (at_or 0 offsets k) (encode (next ∷ deeper) (t k i))
            (parts is k) (rw has at placed),
      )

  part_lem :
      (i : ℕ) (is : List ℕ) (k : ℕ)
      → parts (i ∷ is) k
        ≡ (if test (bits k) i then encode (next ∷ deeper) (t k i) ++ parts is k else parts is k)
  unfolding encode_all
  part_lem i is k = elim (Bool-cases (test (bits k) i)) [
    | inl has ↦ rw has refl
    | inr lacks ↦ rw lacks refl
  ]

  Before-rest :
      (i : ℕ) (is offsets after : List ℕ)
      → Before (i ∷ is) offsets
      → Moved (having i) (λ k. encode (next ∷ deeper) (t k i)) offsets after
      → Before is after
  Before-rest i is offsets after before moved k h =
      let (in_offsets, in_buffers, trees, placed) = before k h in
      let member : mem k (having i) ≡ test (bits k) i =
        mem-filter (λ l. test (bits l) i) k ks ∙ rw h refl in
      (
        rw moved.0 in_offsets,
        in_buffers,
        trees,
        elim (Bool-cases (test (bits k) i)) [
          | inl has ↦
              let there : at_or 0 after k
                  ≡ at_or 0 offsets k + length (encode (next ∷ deeper) (t k i)) =
                moved.1 k ∙ rw (member, has) refl in
              let whole : parts (i ∷ is) k ≡ encode (next ∷ deeper) (t k i) ++ parts is k =
                part_lem i is k ∙ rw has refl in
              rw there (
                later-Placed (at_or [] buffers k) (at_or 0 offsets k)
                  (encode (next ∷ deeper) (t k i)) (parts is k) (rw whole at placed))
          | inr lacks ↦
              let there : at_or 0 after k ≡ at_or 0 offsets k =
                moved.1 k ∙ rw (member, lacks) refl in
              let whole : parts (i ∷ is) k ≡ parts is k = part_lem i is k ∙ rw lacks refl in
              rw (there, ← whole) placed
        ],
      )

  Moved-both :
      (i : ℕ) (is offsets middle after : List ℕ)
      → Moved (having i) (λ k. encode (next ∷ deeper) (t k i)) offsets middle
      → Moved ks (parts is) middle after
      → Moved ks (parts (i ∷ is)) offsets after
  Moved-both i is offsets middle after first later = (
    later.0 ∙ first.0,
    λ j.
        let member = mem-filter (λ l. test (bits l) i) j ks in
        later.1 j
        ∙ rw (first.1 j, member, part_lem i is j)
            (elim (Bool-cases (mem j ks)) [
              | inl within ↦ rw within (elim (Bool-cases (test (bits j) i)) [
                | inl has ↦
                    rw has
                      (omega (arith, length-append (encode (next ∷ deeper) (t j i)) (parts is j)))
                | inr lacks ↦ rw lacks refl
              ])
              | inr without ↦ rw without refl
            ]),
  )

  pub merge_children-Grows :
      (is offsets out : List ℕ)
      → ((i k : ℕ) → mem k ks ≡ true → has_child masks i k ≡ test (bits k) i)
      → ((i : ℕ) → mem i is ≡ true → Child i)
      → Before is offsets
      → Grows ks
          (parts is)
          (encode_all merged_child is)
          offsets
          out
          (merge_children (merge_subtree (next ∷ deeper) buffers) masks ks is offsets out)
  unfolding merge_children encode_all
  merge_children-Grows [] offsets out same child before = (
    offsets,
    ap (λ (b : List ℕ). some (offsets, b)) (sym (append-nil out)),
    (refl, λ j. ground arith),
  )
  merge_children-Grows (i ∷ is) offsets out same child before =
      let here : (i == i) ≡ true = ground arith in
      let (middle, e, first) =
        child i (rw here refl) offsets out (Standing-child i is offsets before) in
      let (after, e', later) =
        merge_children-Grows is middle (out ++ merged_child i) same
          (λ j h. child j (rw h (ground arith))) (Before-rest i is offsets middle before first) in
      let inputs : filter (has_child masks i) ks ≡ having i =
        filter_cong (has_child masks i) (λ k. test (bits k) i) ks (same i) in
      (
        after,
        rw (inputs, e)
            (e'
              ∙ ap (λ (b : List ℕ). some (after, b))
                  (append_assoc out (merged_child i) (encode_all merged_child is))),
        Moved-both i is offsets middle after first later,
      )
