-- ===== src/Wire1d.antt =====
-- airtree-core/src/serdes/trie1d/1DxT.cpp and 1DxF.cpp: the tries of 13-bit and of 16-bit codes as bytes. The
-- two files have the same functions for a level 1 of 32 and of 256 counters; these are written once, for a
-- level 1 of `bins1` counters. A node of level 1 is its counters, and a child that is a null pointer is
-- `none`. A null pointer returned is `none`, too.
pub mod Children
pub mod RoundTrip
pub mod Buffer
pub mod Generated
mod Tests
use air_tree.Common.{
  ℕ, Bool, not, Option, none, some, List, [], ◌∷◌, if◌then◌else◌, at_or, modify, replicate, ◌>>=◌,
  true,
}
use air_tree.Node.{
  mask_from_counts, write_node, read_node, write_end_of_file_marker, verify_end_of_file_marker,
}
use air_tree.SetBits.{set_bits}

pub record TrieRoot : Type 0 where
  pub populated : List ℕ
  pub nodes : List (Option (List ℕ))
  pub counts : List ℕ

unfoldable pub serialize_l1 : ℕ → List ℕ → List ℕ → Option (List ℕ)
serialize_l1 bins1 counts out = write_node (mask_from_counts counts bins1) bins1 counts out

-- `if (node->nodes[i])`.
unfoldable pub serialize_child : ℕ → Option (List ℕ) → List ℕ → Option (List ℕ)
serialize_child bins1 none out = some out
serialize_child bins1 (some counts) out = serialize_l1 bins1 counts out

-- The loop over the populated bins.
unfoldable pub serialize_children : ℕ → List ℕ → List (Option (List ℕ)) → List ℕ → Option (List ℕ)
serialize_children bins1 [] nodes out = some out
serialize_children bins1 (i ∷ is) nodes out =
    serialize_child bins1 (at_or none nodes i) out
    >>= (λ out'. serialize_children bins1 is nodes out')

unfoldable pub serialize_root : ℕ → TrieRoot → List ℕ → Bool → Option (List ℕ)
serialize_root bins1 node out recursive = write_node node.populated 256 node.counts out >>= (λ out'.
    if not recursive
    then some out'
    else serialize_children bins1 (set_bits node.populated 256) node.nodes out'
      >>= (λ out''. some (write_end_of_file_marker out'')))

unfoldable pub serialize_1dxt : TrieRoot → List ℕ → Bool → Option (List ℕ)
serialize_1dxt node out recursive = serialize_root 32 node out recursive

unfoldable pub serialize_1dxf : TrieRoot → List ℕ → Bool → Option (List ℕ)
serialize_1dxf node out recursive = serialize_root 256 node out recursive

-- The counters of a node of level 1, and the offset behind it.
unfoldable pub deserialize_l1 : ℕ → List ℕ → ℕ → Option (List ℕ × ℕ)
deserialize_l1 bins1 buffer offset =
    read_node buffer offset bins1 >>= (λ node. some (node.1, node.2))

unfoldable pub deserialize_children :
    ℕ → List ℕ → List ℕ → ℕ → List (Option (List ℕ)) → Option (List (Option (List ℕ)) × ℕ)
deserialize_children bins1 [] buffer offset nodes = some (nodes, offset)
deserialize_children bins1 (i ∷ is) buffer offset nodes =
    deserialize_l1 bins1 buffer offset >>= (λ child.
      deserialize_children bins1 is buffer child.1 (modify i (λ old. some child.0) nodes))

unfoldable pub deserialize_root : ℕ → List ℕ → ℕ → Bool → Option (TrieRoot × ℕ)
deserialize_root bins1 buffer offset recursive = read_node buffer offset 256 >>= (λ node.
    if not recursive
    then some (record { populated = node.0; nodes = replicate 256 none; counts = node.1 }, node.2)
    else deserialize_children bins1 (set_bits node.0 256) buffer node.2 (replicate 256 none)
      >>= (λ children. verify_end_of_file_marker buffer children.1 >>= (λ end.
          some (record { populated = node.0; nodes = children.0; counts = node.1 }, end))))

unfoldable pub deserialize_1dxt : List ℕ → ℕ → Bool → Option (TrieRoot × ℕ)
deserialize_1dxt buffer offset recursive = deserialize_root 32 buffer offset recursive

unfoldable pub deserialize_1dxf : List ℕ → ℕ → Option (TrieRoot × ℕ)
deserialize_1dxf buffer offset = deserialize_root 256 buffer offset true
