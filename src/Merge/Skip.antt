-- ===== src/Merge/Skip.antt =====
-- Skipping a subtree moves the cursor behind its bytes.
use air_tree.Common.{
  ℕ, ◌+◌, ◌≡◌, ◌∙◌, refl, sym, ap, arith, true, List, [], ◌∷◌, length, length-append, Option, some,
  ◌==◌,
}
use air_tree.SetBits.{set_bits}
use air_tree.SetBits.Member.{mem, mem-set_bits}
use air_tree.Node.RoundTrip.{IsNode, IsBytes, node-IsBytes}
use air_tree.Merge.{skip_children, skip_subtree}
use air_tree.Merge.Trees.{Tree, IsTree, node_bytes, written_or_nothing, encode, encode_all}
use air_tree.Merge.Placed.{Placed, first-Placed, later-Placed, placed_skip}

pub node_bytes-IsBytes :
    (bins : ℕ) (mask counts : List ℕ)
    → IsNode bins mask counts
    → IsBytes bins mask counts (node_bytes bins mask counts)
node_bytes-IsBytes bins mask counts node =
    let (tail, b) = node-IsBytes bins mask counts node in
    let same : node_bytes bins mask counts ≡ tail = ap written_or_nothing (b.written []) in
    rw same b

skip_children-encode_all :
    (skip : ℕ → Option ℕ) (f : ℕ → List ℕ) (buffer is : List ℕ) (offset : ℕ)
    → ((i p : ℕ) → mem i is ≡ true → Placed buffer p (f i) → skip p ≡ some (p + length (f i)))
    → Placed buffer offset (encode_all f is)
    → skip_children skip is offset ≡ some (offset + length (encode_all f is))
unfolding skip_children encode_all
skip_children-encode_all skip f buffer [] offset each p = ap some (omega arith)
skip_children-encode_all skip f buffer (i ∷ is) offset each p =
    let here : (i == i) ≡ true = ground arith in
    let one = each i offset (rw here refl) (first-Placed buffer offset (f i) (encode_all f is) p) in
    let more =
      skip_children-encode_all skip f buffer is (offset + length (f i))
        (λ j q h. each j q (rw h (ground arith)))
        (later-Placed buffer offset (f i) (encode_all f is) p) in
    rw one (more ∙ ap some (omega (arith, length-append (f i) (encode_all f is))))

-- The bytes of a trie are skipped.
pub skip_subtree-encode :
    (bins : ℕ) (deeper : List ℕ) (t : Tree (bins ∷ deeper)) (buffer : List ℕ) (offset : ℕ)
    → IsTree (bins ∷ deeper) t
    → Placed buffer offset (encode (bins ∷ deeper) t)
    → skip_subtree (bins ∷ deeper) buffer offset ≡ some (offset + length (encode (bins ∷ deeper) t))
unfolding skip_subtree encode
skip_subtree-encode bins [] t buffer offset tree p =
    rw
      (placed_skip buffer offset bins t.0 t.1 (node_bytes bins t.0 t.1)
        (node_bytes-IsBytes bins t.0 t.1 tree.0) p)
      refl
skip_subtree-encode bins (next ∷ deeper) t buffer offset tree p =
    let top : List ℕ = node_bytes bins t.0 t.1 in
    let f : ℕ → List ℕ = λ i. encode (next ∷ deeper) (t.2 i) in
    let later : List ℕ = encode_all f (set_bits t.0 bins) in
    let node =
      placed_skip buffer offset bins t.0 t.1 top (node_bytes-IsBytes bins t.0 t.1 tree.0)
        (first-Placed buffer offset top later p) in
    let children =
      skip_children-encode_all (skip_subtree (next ∷ deeper) buffer) f buffer (set_bits t.0 bins)
        (offset + length top)
        (λ i q h q_placed.
          skip_subtree-encode next deeper (t.2 i) buffer q
            (tree.1 i (sym (mem-set_bits t.0 bins i tree.0.words tree.0.mask_size) ∙ h)) q_placed)
        (later-Placed buffer offset top later p) in
    rw node (children ∙ ap some (omega (arith, length-append top later)))
