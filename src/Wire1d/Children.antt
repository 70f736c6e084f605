-- ===== src/Wire1d/Children.antt =====
-- The children that were written are read back.
use mathlib.Core.List.{append_assoc, append-nil}
use air_tree.Common.{
  AreBytes, AreBytes-append, ℕ, ◌+◌, ◌^◌, ◌<◌, ◌≡◌, ◌∙◌, sym, ap, arith, List, [], ◌∷◌, ◌++◌,
  length, at_or, modify, Option, some, none, ◌*◌, ◌≤◌, length-append,
}
use air_tree.Mask.{mask_words}
use air_tree.SetBits.Member.{put_all}
use air_tree.Node.{mask_from_counts, read_node}
use air_tree.Node.Masked.{length-mask_from_counts, mask_from_counts-AreWords, test-mask_from_counts}
use air_tree.Node.RoundTrip.{IsNode, IsBytes, node-IsBytes, node_read}
use air_tree.Wire1d.{
  serialize_l1, serialize_child, serialize_children, deserialize_l1, deserialize_children,
}

-- The counters of a node of level 1, each a `uint32_t`.
abbrev pub IsLevel1 : ℕ → List ℕ → Type 0
IsLevel1 bins1 counts = (length counts ≡ bins1) × ((j : ℕ) → at_or 0 counts j < 2 ^ 32)

-- The bins have children, none of them null.
abbrev pub HasChildren : ℕ → List (Option (List ℕ)) → List ℕ → Type 0
HasChildren bins1 nodes [] = Unit {0}
HasChildren bins1 nodes (i ∷ is) =
    ((counts : List ℕ) × (at_or none nodes i ≡ some counts) × IsLevel1 bins1 counts)
    × HasChildren bins1 nodes is

level1-IsNode :
    (bins1 : ℕ) (counts : List ℕ)
    → IsLevel1 bins1 counts
    → IsNode bins1 (mask_from_counts counts bins1) counts
level1-IsNode bins1 counts level = record {
  words = mask_from_counts-AreWords counts bins1;
  mask_size = length-mask_from_counts counts bins1;
  size = level.0;
  fits = level.1;
  marks = λ j. test-mask_from_counts counts bins1 j level.0;
}

-- The bytes of the children of some bins: what is written for them, and what they are read from.
pub record AreChildren (bins1 : ℕ) (is : List ℕ) (nodes : List (Option (List ℕ))) (tail : List ℕ)
    : Type 0 where
  pub bytes : AreBytes tail
  pub size : length tail ≤ length is * (264 * mask_words bins1 + 1)
  pub written : (out : List ℕ) → serialize_children bins1 is nodes out ≡ some (out ++ tail)
  pub read :
      (out rest : List ℕ) (old : List (Option (List ℕ)))
      → AreBytes out
      → AreBytes rest
      → deserialize_children bins1 is ((out ++ tail) ++ rest) (length out) old
        ≡ some (put_all none is nodes old, length (out ++ tail))

-- Bytes between others, taken apart in two ways.
pub between : (a b c d : List ℕ) → (a ++ (b ++ c)) ++ d ≡ (a ++ b) ++ (c ++ d)
between a b c d = ap (λ (t : List ℕ). t ++ d) (sym (append_assoc a b c)) ∙ append_assoc (a ++ b) c d

no_children : (bins1 : ℕ) (nodes : List (Option (List ℕ))) → AreChildren bins1 [] nodes []
unfolding serialize_children deserialize_children
no_children bins1 nodes = record {
  bytes = tt;
  size = omega arith;
  written = λ out. ap some (sym (append-nil out));
  read =
      λ out rest old before after. ap (λ (t : List ℕ). some (old, length t)) (sym (append-nil out));
}

next_child :
    (bins1 i : ℕ) (is : List ℕ) (nodes : List (Option (List ℕ))) (counts first later : List ℕ)
    → at_or none nodes i ≡ some counts
    → IsNode bins1 (mask_from_counts counts bins1) counts
    → IsBytes bins1 (mask_from_counts counts bins1) counts first
    → AreChildren bins1 is nodes later
    → AreChildren bins1 (i ∷ is) nodes (first ++ later)
unfolding serialize_children serialize_child serialize_l1 deserialize_children deserialize_l1
next_child bins1 i is nodes counts first later present node child children = record {
  bytes = AreBytes-append first later child.bytes children.bytes;
  size = omega (arith, length-append first later, child.size, children.size);
  written = λ out.
      rw (present, child.written out)
        (children.written (out ++ first) ∙ ap some (append_assoc out first later));
  read = λ out rest old before after.
      let here : read_node ((out ++ (first ++ later)) ++ rest) (length out) bins1
          ≡ some (mask_from_counts counts bins1, counts, length (out ++ first)) =
        ap (λ (t : List ℕ). read_node t (length out) bins1) (between out first later rest)
        ∙ node_read bins1 (mask_from_counts counts bins1) counts node first out (later ++ rest)
            child before (AreBytes-append later rest children.bytes after) in
      rw (here, present, ← append_assoc out first later)
        (children.read (out ++ first) rest (modify i (λ t. some counts) old)
          (AreBytes-append out first before child.bytes) after);
}

pub children-AreChildren :
    (bins1 : ℕ) (is : List ℕ) (nodes : List (Option (List ℕ)))
    → HasChildren bins1 nodes is
    → (tail : List ℕ) × AreChildren bins1 is nodes tail
children-AreChildren bins1 [] nodes has = ([], no_children bins1 nodes)
children-AreChildren bins1 (i ∷ is) nodes has =
    let (counts, present, level) = has.0 in
    let (first, child) =
      node-IsBytes bins1 (mask_from_counts counts bins1) counts
        (level1-IsNode bins1 counts level) in
    let (later, children) = children-AreChildren bins1 is nodes has.1 in
    (
      first ++ later,
      next_child bins1 i is nodes counts first later present (level1-IsNode bins1 counts level)
          child children,
    )
