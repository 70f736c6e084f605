-- ===== src/Merge/Serialized.antt =====
-- The buffers that tries of one dimension are serialized to are buffers that can be merged.
use mathlib.Core.List.{append_assoc, append-nil}
use air_tree.Common.{
  ℕ, ◌-◌, ◌^◌, ◌<◌, ◌≤◌, ◌≡◌, ◌∙◌, refl, sym, ap, arith, true, List, [], ◌∷◌, ◌++◌, length,
  length-append, at_or, Option, some, none, ◌==◌, AreBytes-append,
}
use air_tree.Config.{lookup_config}
use air_tree.SetBits.{set_bits}
use air_tree.SetBits.Member.{mem, mem-set_bits}
use air_tree.Header.Bytes.{ok}
use air_tree.Header.{found, make_header, deserialize_header, serialize_header}
use air_tree.Header.RoundTrip.{HasByteTypes, finalize_header-front}
use air_tree.Special.{SpecialCounts}
use air_tree.Node.{mask_from_counts, write_end_of_file_marker}
use air_tree.Node.Masked.{length-mask_from_counts, mask_from_counts-AreWords, test-mask_from_counts}
use air_tree.Node.RoundTrip.{IsNode}
use air_tree.Wire1d.{TrieRoot, serialize_root, serialize_children, serialize_child, serialize_l1}
use air_tree.Wire1d.Children.{IsLevel1}
use air_tree.Wire1d.RoundTrip.{IsRoot, root-AreRoot}
use air_tree.Wire1d.Buffer.{exec_serialization, finish}
use air_tree.Wire1d.Buffer.Whole.{AreCounters, header_of, header-IsWire}
use air_tree.Merge.Trees.{Tree, IsTree, node_bytes, encode, encode_all, written_or_nothing}
use air_tree.Merge.Skip.{node_bytes-IsBytes}
use air_tree.Merge.Count.{encode-AreBytes}
use air_tree.Merge.Stored.{IsStored, end_marker}

abbrev pub child_counts : Option (List ℕ) → List ℕ
child_counts none = []
child_counts (some counts) = counts

-- A trie of two levels as a tree.
abbrev pub tree_of : (bins1 : ℕ) → TrieRoot → Tree (256 ∷ bins1 ∷ [])
tree_of bins1 root = (
  root.populated,
  root.counts,
  λ i. (
    mask_from_counts (child_counts (at_or none root.nodes i)) bins1,
    child_counts (at_or none root.nodes i),
    λ j. tt,
  ),
)

level1-IsNode :
    (bins1 : ℕ) (counts : List ℕ)
    → IsLevel1 bins1 counts
    → IsNode bins1 (mask_from_counts counts bins1) counts
level1-IsNode bins1 counts level1 = record {
  words = mask_from_counts-AreWords counts bins1;
  mask_size = length-mask_from_counts counts bins1;
  size = level1.0;
  fits = level1.1;
  marks = λ j. test-mask_from_counts counts bins1 j level1.0;
}

pub tree_of-IsTree :
    (bins1 : ℕ) (root : TrieRoot)
    → IsRoot bins1 root
    → IsTree (256 ∷ bins1 ∷ []) (tree_of bins1 root)
tree_of-IsTree bins1 root trie = (
  trie.node,
  λ i marked.
      let (counts, e, level1) = trie.children i marked in
      (rw e (level1-IsNode bins1 counts level1), λ j m. tt),
)

children-encode_all :
    (bins1 : ℕ) (root : TrieRoot) (is : List ℕ) (out : List ℕ)
    → ((i : ℕ)
        → mem i is ≡ true
        → (counts : List ℕ) × (at_or none root.nodes i ≡ some counts) × IsLevel1 bins1 counts)
    → serialize_children bins1 is root.nodes out
      ≡ some (out ++ encode_all (λ i. encode (bins1 ∷ []) ((tree_of bins1 root).2 i)) is)
unfolding serialize_children serialize_child encode_all encode serialize_l1
children-encode_all bins1 root [] out each = ap (λ (t : List ℕ). some t) (sym (append-nil out))
children-encode_all bins1 root (i ∷ is) out each =
    let here : (i == i) ≡ true = ground arith in
    let (counts, e, level1) = each i (rw here refl) in
    let f : ℕ → List ℕ = λ k. encode (bins1 ∷ []) ((tree_of bins1 root).2 k) in
    let bytes : List ℕ = node_bytes bins1 (mask_from_counts counts bins1) counts in
    let written =
      (node_bytes-IsBytes bins1 (mask_from_counts counts bins1) counts
          (level1-IsNode bins1 counts level1)).written
        out in
    let rest =
      children-encode_all bins1 root is (out ++ bytes) (λ j h. each j (rw h (ground arith))) in
    rw (e, written) (rest ∙ ap (λ (t : List ℕ). some t) (append_assoc out bytes (encode_all f is)))

module _ (bins1 : ℕ) (root : TrieRoot) (trie : IsRoot bins1 root) where
  abbrev payload : List ℕ
  payload = encode (256 ∷ bins1 ∷ []) (tree_of bins1 root) ++ end_marker

  serialize_root-encode :
      (out : List ℕ) → serialize_root bins1 root out true ≡ some (out ++ payload)
  unfolding serialize_root encode write_end_of_file_marker
  serialize_root-encode out =
      let top : List ℕ = node_bytes 256 root.populated root.counts in
      let is : List ℕ = set_bits root.populated 256 in
      let later : List ℕ = encode_all (λ i. encode (bins1 ∷ []) ((tree_of bins1 root).2 i)) is in
      let written = (node_bytes-IsBytes 256 root.populated root.counts trie.node).written out in
      let children = children-encode_all bins1 root is (out ++ top) (λ i h.
        trie.children i
          (sym (mem-set_bits root.populated 256 i trie.node.words trie.node.mask_size) ∙ h)) in
      rw (written, children)
        (ap (λ (t : List ℕ). some t)
          (ap (λ (t : List ℕ). t ++ end_marker) (append_assoc out top later)
            ∙ append_assoc out (top ++ later) end_marker))

  payload-lt : bins1 ≤ 256 → length payload < 2 ^ 64
  payload-lt small =
      let (tail, wire) = root-AreRoot bins1 root trie in
      let same : payload ≡ tail =
        ap written_or_nothing (sym (serialize_root-encode []) ∙ wire.written []) in
      rw same (omega (arith, wire.size))

module _ (bins1 config : ℕ) (root : TrieRoot) (special : SpecialCounts) (small : bins1 ≤ 256)
    (byte : config < 256) (known : found (lookup_config config) ≡ true) (trie : IsRoot bins1 root)
    (counters : AreCounters special) where
  -- Serializing a trie with its header gives a buffer to be merged, with the header of the trie.
  pub exec_serialization-IsStored :
      (buffer : List ℕ) × (n : ℕ) × (exec_serialization bins1 config root special
        ≡ ok (some buffer))
      × (deserialize_header buffer ≡ ok (header_of config root special n))
      × IsStored 256 (bins1 ∷ []) buffer 49 (tree_of bins1 root)
  unfolding exec_serialization make_header finish
  exec_serialization-IsStored =
      let h = header_of config root special 0 in
      let tail : List ℕ = payload bins1 root trie in
      let types : HasByteTypes h =
        (byte, (omega arith, (omega arith, (omega arith, (omega arith, tt))))) in
      let tree = tree_of-IsTree bins1 root trie in
      let (front, bytes, long, length_before, bytes_before, finalized, read) =
        finalize_header-front h (length tail) tail
          (header-IsWire bins1 config root special small byte known trie counters) types
          (payload-lt bins1 root trie small) in
      let behind : length (serialize_header h [] ++ tail) - length (serialize_header h [])
          ≡ length tail =
        omega (arith, length-append (serialize_header h []) tail) in
      (
        front ++ tail,
        length tail,
        rw (known, serialize_root-encode bins1 root trie (serialize_header h []), behind, finalized)
            refl,
        read,
        record {
          tree = tree;
          placed = record {
            front = front;
            rest = [];
            place = sym (append-nil (front ++ tail));
            start = sym long;
            front_bytes = bytes;
            own_bytes =
                AreBytes-append (encode (256 ∷ bins1 ∷ []) (tree_of bins1 root)) end_marker
                  (encode-AreBytes (256 ∷ bins1 ∷ []) (tree_of bins1 root) tree)
                  (omega arith, (omega arith, (omega arith, (omega arith, tt))));
            rest_bytes = tt;
          };
        },
      )
