-- ===== src/Merge/Sizes.antt =====
-- How long the bytes of a trie of two levels are.
use air_tree.Common.{
  ℕ, ◌+◌, ◌*◌, ◌≤◌, ◌≡◌, ◌∙◌, refl, sym, arith, true, List, [], ◌∷◌, length, length-append, ◌==◌,
}
use native.Mathlib.Nat.{mul-le-mul_right}
use air_tree.Mask.{mask_words}
use air_tree.SetBits.{set_bits}
use air_tree.SetBits.Ones.{length-set_bits-le}
use air_tree.SetBits.Member.{mem, mem-set_bits}
use air_tree.Merge.Trees.{Tree, IsTree, node_bytes, encode, encode_all}
use air_tree.Merge.Skip.{node_bytes-IsBytes}

length-encode_all :
    (f : ℕ → List ℕ) (is : List ℕ) (most : ℕ)
    → ((i : ℕ) → mem i is ≡ true → length (f i) ≤ most)
    → length (encode_all f is) ≤ length is * most
unfolding encode_all
length-encode_all f [] most each = omega arith
length-encode_all f (i ∷ is) most each =
    let here : (i == i) ≡ true = ground arith in
    let rest = length-encode_all f is most (λ j h. each j (rw h (ground arith))) in
    omega (arith, length-append (f i) (encode_all f is), each i (rw here refl), rest)

pub length-encode :
    (bins1 : ℕ) (t : Tree (256 ∷ bins1 ∷ []))
    → IsTree (256 ∷ bins1 ∷ []) t
    → length (encode (256 ∷ bins1 ∷ []) t) ≤ 1057 + 256 * (264 * mask_words bins1 + 1)
unfolding encode
length-encode bins1 t tree =
    let most : ℕ = 264 * mask_words bins1 + 1 in
    let is : List ℕ = set_bits t.0 256 in
    let top : List ℕ = node_bytes 256 t.0 t.1 in
    let later : List ℕ = encode_all (λ i. encode (bins1 ∷ []) (t.2 i)) is in
    let first = (node_bytes-IsBytes 256 t.0 t.1 tree.0).size in
    let rest : length later ≤ length is * most =
      length-encode_all (λ i. encode (bins1 ∷ []) (t.2 i)) is most
        (λ i h.
          (node_bytes-IsBytes bins1 (t.2 i).0 (t.2 i).1
            (tree.1 i (sym (mem-set_bits t.0 256 i tree.0.words tree.0.mask_size) ∙ h)).0).size) in
    let many : length is * most ≤ 256 * most =
      mul-le-mul_right most (length-set_bits-le t.0 256 tree.0.words) in
    omega (arith, length-append top later, first, rest, many)
