-- ===== src/Merge/Trees.antt =====
-- Tries as trees, their bytes, and what it means to merge them.
use air_tree.Common.{
  ℕ, zero, suc, ◌+◌, ◌^◌, ◌<◌, ◌≡◌, true, Option, none, some, List, [], ◌∷◌, ◌++◌, ◌==◌,
  if◌then◌else◌, at_or, replicate, length,
}
use air_tree.Mask.{mask_words}
use air_tree.Populated.{test, union}
use air_tree.SetBits.{set_bits}
use air_tree.SetBits.Order.{filter}
use air_tree.Node.{write_node}
use air_tree.Node.RoundTrip.{IsNode}

-- A trie of some levels: the mask and the counts of its root, and a trie for each bin.
abbrev pub Tree : List ℕ → Type 0
Tree [] = Unit {0}
Tree (bins ∷ deeper) = List ℕ × List ℕ × (ℕ → Tree deeper)

-- Every node that belongs to the trie is one: those of populated bins.
abbrev pub IsTree : (levels : List ℕ) → Tree levels → Type 0
IsTree [] t = Unit {0}
IsTree (bins ∷ deeper) t =
    IsNode bins t.0 t.1 × ((i : ℕ) → test t.0 i ≡ true → IsTree deeper (t.2 i))

abbrev pub written_or_nothing : Option (List ℕ) → List ℕ
written_or_nothing none = []
written_or_nothing (some bytes) = bytes

abbrev pub node_bytes : ℕ → List ℕ → List ℕ → List ℕ
node_bytes bins mask counts = written_or_nothing (write_node mask bins counts [])

unfoldable pub encode_all : (ℕ → List ℕ) → List ℕ → List ℕ
encode_all f [] = []
encode_all f (i ∷ is) = f i ++ encode_all f is

-- The nodes in depth-first order.
unfoldable pub encode : (levels : List ℕ) → Tree levels → List ℕ
encode [] t = []
encode (bins ∷ []) t = node_bytes bins t.0 t.1
encode (bins ∷ next ∷ deeper) t =
    node_bytes bins t.0 t.1 ++ encode_all (λ i. encode (next ∷ deeper) (t.2 i)) (set_bits t.0 bins)

-- The sum over some inputs.
abbrev pub total : (ℕ → ℕ) → List ℕ → ℕ
total f [] = 0
total f (k ∷ ks) = f k + total f ks

abbrev pub tabulate_from : ℕ → ℕ → (ℕ → ℕ) → List ℕ
tabulate_from zero base f = []
tabulate_from (suc n) base f = f base ∷ tabulate_from n (suc base) f

-- The masks of some inputs in one.
abbrev pub union_all : List ℕ → (ℕ → List ℕ) → List ℕ → List ℕ
union_all mask f [] = mask
union_all mask f (k ∷ ks) = union_all (union mask (f k)) f ks

-- The merge of the tries of some inputs: the root has the bins of all, with the sums of their counts,
-- and at each bin the merge of the tries that the inputs have there.
unfoldable pub merge_trees : (levels inputs : List ℕ) → (ℕ → Tree levels) → Tree levels
merge_trees [] inputs t = tt
merge_trees (bins ∷ deeper) inputs t = if length inputs == 1 then t (at_or 0 inputs 0) else (
  union_all (replicate (mask_words bins) 0) (λ k. (t k).0) inputs,
  tabulate_from bins 0 (λ i. total (λ k. at_or 0 (t k).1 i) inputs),
  λ i. merge_trees deeper (filter (λ k. test (t k).0 i) inputs) (λ k. (t k).2 i),
)

-- No sum passes a `uint32_t`.
abbrev pub NoOverflow : (levels inputs : List ℕ) → (ℕ → Tree levels) → Type 0
NoOverflow [] inputs t = Unit {0}
NoOverflow (bins ∷ deeper) inputs t =
    ((i : ℕ) → total (λ k. at_or 0 (t k).1 i) inputs < 2 ^ 32)
    × ((i : ℕ) → NoOverflow deeper (filter (λ k. test (t k).0 i) inputs) (λ k. (t k).2 i))

-- The count under a path of bins, 0 where a bin on the way is not populated.
unfoldable pub count_under : (levels : List ℕ) → Tree levels → List ℕ → ℕ
count_under [] t path = 0
count_under (bins ∷ deeper) t [] = 0
count_under (bins ∷ deeper) t (i ∷ []) = at_or 0 t.1 i
count_under (bins ∷ deeper) t (i ∷ j ∷ path) =
    let below = count_under deeper (t.2 i) (j ∷ path) in if test t.0 i then below else 0
