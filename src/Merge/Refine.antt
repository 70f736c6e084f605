-- ===== src/Merge/Refine.antt =====
-- What merging does to cursors and output, and the subtree that only one input has.
use air_tree.Common.{
  ℕ, ◌+◌, ◌<◌, ◌≡◌, ◌∙◌, refl, arith, true, Bool-cases, inl, inr, ◌==◌, if◌then◌else◌, List, [],
  ◌∷◌, ◌++◌, length, at_or, modify, at_or-modify, length-modify, Option, some,
}
use air_tree.SetBits.Member.{mem}
use air_tree.Merge.{copy_subtree, MergeState}
use air_tree.Merge.Trees.{Tree, IsTree, encode}
use air_tree.Merge.Placed.{Placed, take-drop}
use air_tree.Merge.Skip.{skip_subtree-encode}

-- The cursors of the inputs stand before their tries.
abbrev pub Standing :
    (levels : List ℕ) → List (List ℕ) → List ℕ → (ℕ → Tree levels) → List ℕ → Type 0
Standing levels buffers ks t offsets =
    (k : ℕ)
    → mem k ks ≡ true
    → (k < length offsets)
      × (k < length buffers)
      × IsTree levels (t k)
      × Placed (at_or [] buffers k) (at_or 0 offsets k) (encode levels (t k))

-- The cursors of some inputs moved on by the bytes of their parts.
abbrev pub Moved : List ℕ → (ℕ → List ℕ) → List ℕ → List ℕ → Type 0
Moved ks part offsets after =
    (length after ≡ length offsets)
    × ((j : ℕ)
        → at_or 0 after j
          ≡ (if mem j ks then at_or 0 offsets j + length (part j) else at_or 0 offsets j))

-- The output grows by some bytes, and the cursors move on.
abbrev pub Grows : List ℕ → (ℕ → List ℕ) → List ℕ → List ℕ → List ℕ → Option MergeState → Type 0
Grows ks part bytes offsets out r =
    (after : List ℕ) × (r ≡ some (after, out ++ bytes)) × Moved ks part offsets after

pub copy-Grows :
    (bins : ℕ) (deeper : List ℕ) (buffers : List (List ℕ)) (k : ℕ) (t : ℕ → Tree (bins ∷ deeper))
    (offsets out : List ℕ)
    → Standing (bins ∷ deeper) buffers (k ∷ []) t offsets
    → Grows
        (k ∷ [])
        (λ j. encode (bins ∷ deeper) (t j))
        (encode (bins ∷ deeper) (t k))
        offsets
        out
        (copy_subtree (bins ∷ deeper) buffers k offsets out)
unfolding copy_subtree
copy-Grows bins deeper buffers k t offsets out standing =
    let here : (k == k) ≡ true = ground arith in
    let (in_offsets, in_buffers, tree, placed) = standing k (rw here refl) in
    let offset = at_or 0 offsets k in
    let bytes : List ℕ = encode (bins ∷ deeper) (t k) in
    let skipped = skip_subtree-encode bins deeper (t k) (at_or [] buffers k) offset tree placed in
    let slice = take-drop (at_or [] buffers k) offset bytes placed in
    (
      modify k (λ old. offset + length bytes) offsets,
      rw (skipped, slice) refl,
      (
        length-modify k (λ old. offset + length bytes) offsets,
        λ j.
            at_or-modify 0 k (λ old. offset + length bytes) offsets j in_offsets
            ∙ elim (Bool-cases (k == j)) [
              | inl same ↦ let e : k ≡ j = ground arith in rw (same, e) refl
              | inr other ↦ rw other refl
            ],
      ),
    )
