-- ===== src/Wire1d/RoundTrip.antt =====
-- A trie that was written is read back, with the children of its populated bins.
use mathlib.Core.List.{append_assoc}
use air_tree.Common.{
  AreBytes, AreBytes-append, ℕ, ◌+◌, ◌≡◌, ◌∙◌, refl, sym, ap, arith, true, List, [], ◌∷◌, ◌++◌,
  length, at_or, Option, some, none, ◌==◌, ◌*◌, ◌≤◌, length-append, if◌then◌else◌, replicate,
  length-replicate, at_or-replicate,
}
use air_tree.Populated.{test}
use native.Mathlib.Nat.{mul-le-mul_right}
use air_tree.Mask.{mask_words}
use air_tree.SetBits.{set_bits}
use air_tree.SetBits.Ones.{length-set_bits-le}
use air_tree.SetBits.Member.{mem, mem-set_bits, put_all, at_or-put_all, AllBelow}
use air_tree.Node.{read_node, write_end_of_file_marker}
use air_tree.Node.RoundTrip.{
  IsNode, node-IsBytes, node_read, bins-AllBelow, verify-write_end_of_file_marker,
}
use air_tree.Wire1d.{TrieRoot, serialize_root, deserialize_root, deserialize_children}
use air_tree.Wire1d.Children.{IsLevel1, HasChildren, children-AreChildren}

-- A trie to be written: every populated bin has its node of level 1.
pub record IsRoot (bins1 : ℕ) (root : TrieRoot) : Type 0 where
  pub node : IsNode 256 root.populated root.counts
  pub children :
      (i : ℕ)
      → test root.populated i ≡ true
      → (counts : List ℕ) × (at_or none root.nodes i ≡ some counts) × IsLevel1 bins1 counts

-- The trie that is read: null pointers where a bin is not populated.
abbrev pub stored : TrieRoot → TrieRoot
stored root = record root {
  nodes = put_all none (set_bits root.populated 256) root.nodes (replicate 256 none);
}

-- The bytes of a trie: what is written for it, and what it is read from.
pub record AreRoot (bins1 : ℕ) (root : TrieRoot) (tail : List ℕ) : Type 0 where
  pub bytes : AreBytes tail
  pub nonempty : 4 ≤ length tail
  pub size : length tail ≤ 1061 + 256 * (264 * mask_words bins1 + 1)
  pub written : (out : List ℕ) → serialize_root bins1 root out true ≡ some (out ++ tail)
  pub read :
      (out rest : List ℕ)
      → AreBytes out
      → AreBytes rest
      → deserialize_root bins1 ((out ++ tail) ++ rest) (length out) true
        ≡ some (stored root, length (out ++ tail))

all_children :
    (bins1 : ℕ) (nodes : List (Option (List ℕ))) (is : List ℕ)
    → ((j : ℕ)
        → mem j is ≡ true
        → (counts : List ℕ) × (at_or none nodes j ≡ some counts) × IsLevel1 bins1 counts)
    → HasChildren bins1 nodes is
all_children bins1 nodes [] has = tt
all_children bins1 nodes (i ∷ is) has =
    let here : (i == i) ≡ true = ground arith in
    (has i (rw here refl), all_children bins1 nodes is (λ j h. has j (rw h (ground arith))))

module _ (bins1 : ℕ) (root : TrieRoot) (trie : IsRoot bins1 root) where
  populated_children : HasChildren bins1 root.nodes (set_bits root.populated 256)
  populated_children = all_children bins1 root.nodes (set_bits root.populated 256) (λ j h.
      trie.children j
        (sym (mem-set_bits root.populated 256 j trie.node.words trie.node.mask_size) ∙ h))

  root_size :
      (top later : List ℕ)
      → length top ≤ 264 * mask_words 256 + 1
      → length later ≤ length (set_bits root.populated 256) * (264 * mask_words bins1 + 1)
      → length (top ++ (later ++ (0xFF ∷ 0xFF ∷ 0xFF ∷ 0xFF ∷ [])))
        ≤ 1061 + 256 * (264 * mask_words bins1 + 1)
  root_size top later first rest =
      let mark : List ℕ = 0xFF ∷ 0xFF ∷ 0xFF ∷ 0xFF ∷ [] in
      let many : length (set_bits root.populated 256) * (264 * mask_words bins1 + 1)
          ≤ 256 * (264 * mask_words bins1 + 1) =
        mul-le-mul_right (264 * mask_words bins1 + 1)
          (length-set_bits-le root.populated 256 trie.node.words) in
      omega (arith, length-append top (later ++ mark), length-append later mark, first, rest, many)

  pub root-AreRoot : (tail : List ℕ) × AreRoot bins1 root tail
  unfolding serialize_root deserialize_root write_end_of_file_marker
  root-AreRoot =
      let is = set_bits root.populated 256 in
      let (top, node) = node-IsBytes 256 root.populated root.counts trie.node in
      let (later, children) = children-AreChildren bins1 is root.nodes populated_children in
      let mark : List ℕ = 0xFF ∷ 0xFF ∷ 0xFF ∷ 0xFF ∷ [] in
      let marked : AreBytes mark = (omega arith, (omega arith, (omega arith, (omega arith, tt)))) in
      let all : (out : List ℕ) → out ++ (top ++ (later ++ mark)) ≡ ((out ++ top) ++ later) ++ mark =
        λ out. sym (append_assoc (out ++ top) later mark ∙ append_assoc out top (later ++ mark)) in
      (
        top ++ (later ++ mark),
        record {
          bytes =
              AreBytes-append top (later ++ mark) node.bytes
                (AreBytes-append later mark children.bytes marked);
          nonempty = omega (arith, length-append top (later ++ mark), length-append later mark);
          size = root_size top later node.size children.size;
          written = λ out. rw (node.written out, children.written (out ++ top), all out) refl;
          read = λ out rest before after.
              let whole = ((out ++ top) ++ later) ++ mark in
              let front : read_node (whole ++ rest) (length out) 256
                  ≡ some (root.populated, root.counts, length (out ++ top)) =
                ap (λ (t : List ℕ). read_node t (length out) 256)
                  (append_assoc ((out ++ top) ++ later) mark rest
                    ∙ append_assoc (out ++ top) later (mark ++ rest))
                ∙ node_read 256 root.populated root.counts trie.node top out
                    (later ++ (mark ++ rest)) node before
                    (AreBytes-append later (mark ++ rest) children.bytes
                      (AreBytes-append mark rest marked after)) in
              let middle : deserialize_children bins1 is (whole ++ rest) (length (out ++ top))
                    (replicate 256 none)
                  ≡ some (
                    put_all none is root.nodes (replicate 256 none),
                    length ((out ++ top) ++ later),
                  ) =
                ap
                  (λ (t : List ℕ).
                    deserialize_children bins1 is t (length (out ++ top)) (replicate 256 none))
                  (append_assoc ((out ++ top) ++ later) mark rest)
                ∙ children.read (out ++ top) (mark ++ rest) (replicate 256 none)
                    (AreBytes-append out top before node.bytes)
                    (AreBytes-append mark rest marked after) in
              rw
                (
                  all out,
                  front,
                  middle,
                  verify-write_end_of_file_marker ((out ++ top) ++ later) rest,
                )
                refl;
        },
      )

  -- Which children the trie that is read has.
  pub stored-nodes :
      (i : ℕ)
      → at_or none (stored root).nodes i
        ≡ (if test root.populated i then at_or none root.nodes i else none)
  stored-nodes i =
      let below : AllBelow (length (replicate {A = Option (List ℕ)} 256 none))
          (set_bits root.populated 256) =
        rw (length-replicate {A = Option (List ℕ)} 256 none)
          (bins-AllBelow 256 root.populated root.counts trie.node) in
      at_or-put_all none (set_bits root.populated 256) root.nodes (replicate 256 none) i below
      ∙ rw
          (
            mem-set_bits root.populated 256 i trie.node.words trie.node.mask_size,
            at_or-replicate {A = Option (List ℕ)} none 256 i,
          )
          refl
