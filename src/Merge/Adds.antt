-- ===== src/Merge/Adds.antt =====
-- What the merge means: counts under the paths of bins, and the counters of the headers, add up.
use air_tree.Common.{ℕ, ◌+◌, ◌%◌, ◌^◌, ◌<◌, ◌≡◌, ◌∙◌, refl, arith, some, List, [], ◌∷◌, length, suc}
use air_tree.SetBits.Order.{Ascends}
use air_tree.Header.Bytes.{ok}
use air_tree.Header.{AirTreeHeader, deserialize_header}
use air_tree.Header.RoundTrip.{IsWire, HasByteTypes}
use air_tree.Merge.{merge_subtree}
use air_tree.Merge.Trees.{Tree, IsTree, encode, merge_trees, NoOverflow, total, count_under}
use air_tree.Merge.Refine.{Standing, Grows}
use air_tree.Merge.Whole.{merge_subtree-Grows}
use air_tree.Merge.Count.{AreTrees, merge_trees-IsTree, count_under-merge_trees}
use air_tree.Merge.Streaming.{add_header, merge_headers, merge_streaming, inputs_from}
use air_tree.Merge.Stored.{
  add_header-IsWire, IsStored, AllStored, merged, member, merge_streaming-IsStored,
}

-- A trie that is, as what it counts, the sum of some tries.
pub record IsSum (levels ks : List ℕ) (t : ℕ → Tree levels) (sum : Tree levels) : Type 0 where
  pub tree : IsTree levels sum
  pub adds :
      (path : List ℕ) → count_under levels sum path ≡ total (λ k. count_under levels (t k) path) ks

merge_trees-IsSum :
    (levels ks : List ℕ) (t : ℕ → Tree levels)
    → AreTrees levels ks t
    → NoOverflow levels ks t
    → IsSum levels ks t (merge_trees levels ks t)
merge_trees-IsSum levels ks t trees small = record {
  tree = merge_trees-IsTree levels ks t trees small;
  adds = λ path. count_under-merge_trees levels ks t path trees;
}

-- The inputs' cursors stand before the bytes of well-formed tries, and no sum of counts passes a
-- `uint32_t`: mergeSubtree succeeds, puts out the bytes of a well-formed trie that has under each path
-- of bins the sum of the inputs' counts, and moves the cursors of the inputs behind their tries and no
-- other.
pub merge_subtree-adds :
    (bins : ℕ) (deeper : List ℕ) (buffers : List (List ℕ)) (ks : List ℕ)
    (t : ℕ → Tree (bins ∷ deeper)) (offsets out : List ℕ)
    → Ascends 0 ks
    → Standing (bins ∷ deeper) buffers ks t offsets
    → NoOverflow (bins ∷ deeper) ks t
    → (sum : Tree (bins ∷ deeper)) × IsSum (bins ∷ deeper) ks t sum
      × Grows ks
          (λ j. encode (bins ∷ deeper) (t j))
          (encode (bins ∷ deeper) sum)
          offsets
          out
          (merge_subtree (bins ∷ deeper) buffers ks offsets out)
merge_subtree-adds bins deeper buffers ks t offsets out up standing small = (
  merge_trees (bins ∷ deeper) ks t,
  merge_trees-IsSum (bins ∷ deeper) ks t (λ k h. (standing k h).2) small,
  merge_subtree-Grows bins deeper buffers ks t offsets out up standing small,
)

abbrev pub sum_of : (AirTreeHeader → ℕ) → List AirTreeHeader → ℕ
sum_of field [] = 0
sum_of field (h ∷ hs) = field h + sum_of field hs

-- The counters of some headers, added up as `uint32_t`.
pub record HasSums (hs : List AirTreeHeader) (h : AirTreeHeader) : Type 0 where
  pub trie_count : h.trie_count ≡ sum_of (λ g. g.trie_count) hs % 2 ^ 32
  pub pos_inf_count : h.pos_inf_count ≡ sum_of (λ g. g.pos_inf_count) hs % 2 ^ 32
  pub neg_inf_count : h.neg_inf_count ≡ sum_of (λ g. g.neg_inf_count) hs % 2 ^ 32
  pub pos_zero_count : h.pos_zero_count ≡ sum_of (λ g. g.pos_zero_count) hs % 2 ^ 32
  pub neg_zero_count : h.neg_zero_count ≡ sum_of (λ g. g.neg_zero_count) hs % 2 ^ 32
  pub nan_count : h.nan_count ≡ sum_of (λ g. g.nan_count) hs % 2 ^ 32

step : (a b c : ℕ) → ((a + b) % 2 ^ 32 + c) % 2 ^ 32 ≡ (a + (b + c)) % 2 ^ 32
step a b c = omega arith

stays : (a : ℕ) → a < 2 ^ 32 → a ≡ (a + 0) % 2 ^ 32
stays a h = omega arith

merge_headers-HasSums :
    (hs : List AirTreeHeader) (h : AirTreeHeader) → IsWire h → HasSums (h ∷ hs) (merge_headers hs h)
unfolding merge_headers
merge_headers-HasSums [] h w = record {
  trie_count = stays h.trie_count w.trie_count;
  pos_inf_count = stays h.pos_inf_count w.pos_inf_count;
  neg_inf_count = stays h.neg_inf_count w.neg_inf_count;
  pos_zero_count = stays h.pos_zero_count w.pos_zero_count;
  neg_zero_count = stays h.neg_zero_count w.neg_zero_count;
  nan_count = stays h.nan_count w.nan_count;
}
merge_headers-HasSums (g ∷ hs) h w =
    let rest = merge_headers-HasSums hs (add_header h g) (add_header-IsWire h g w) in
    record {
      trie_count = rest.trie_count ∙ step h.trie_count g.trie_count _;
      pos_inf_count = rest.pos_inf_count ∙ step h.pos_inf_count g.pos_inf_count _;
      neg_inf_count = rest.neg_inf_count ∙ step h.neg_inf_count g.neg_inf_count _;
      pos_zero_count = rest.pos_zero_count ∙ step h.pos_zero_count g.pos_zero_count _;
      neg_zero_count = rest.neg_zero_count ∙ step h.neg_zero_count g.neg_zero_count _;
      nan_count = rest.nan_count ∙ step h.nan_count g.nan_count _;
    }

merge_headers-config :
    (hs : List AirTreeHeader) (h : AirTreeHeader) → (merge_headers hs h).config ≡ h.config
unfolding merge_headers
merge_headers-config [] h = refl
merge_headers-config (g ∷ hs) h = merge_headers-config hs (add_header h g)

module _ (bins : ℕ) (deeper : List ℕ) (buffers : List (List ℕ)) (header : AirTreeHeader)
    (headers : List AirTreeHeader) (t : ℕ → Tree (bins ∷ deeper)) where
  -- The first header is one of this version, the buffers hold well-formed tries and the end marker behind
  -- their headers, and no sum of counts passes a `uint32_t`: mergeStreaming gives a buffer of which
  -- the header has the sums of the counters, of which the payload is as long as the header says, and which
  -- holds, behind a header of 49 bytes and before the end marker, a well-formed trie that has under each
  -- path of bins the sum of the inputs' counts.
  pub merge_streaming-adds :
      length buffers ≡ suc (length headers)
      → IsWire header
      → HasByteTypes header
      → AllStored bins deeper buffers header headers t
      → NoOverflow (bins ∷ deeper) (inputs_from (length buffers) 0) t
      → length (merged bins deeper buffers header headers t) + 4 < 2 ^ 64
      → (buffer : List ℕ) × (h : AirTreeHeader) × (sum : Tree (bins ∷ deeper)) × (merge_streaming
            buffers header headers
            (bins ∷ deeper)
          ≡ ok (some buffer))
        × (deserialize_header buffer ≡ ok h)
        × HasSums (header ∷ headers) h
        × (h.config ≡ header.config)
        × (h.payload_length ≡ length (encode (bins ∷ deeper) sum) + 4)
        × IsStored bins deeper buffer 49 sum
        × IsSum (bins ∷ deeper) (inputs_from (length buffers) 0) t sum
  merge_streaming-adds same wire types stored small size =
      let ks : List ℕ = inputs_from (length buffers) 0 in
      let (buffer, made, read, behind) =
        merge_streaming-IsStored bins deeper buffers header headers t same wire types stored small
          size in
      let sums = merge_headers-HasSums headers header wire in
      (
        buffer,
        record (merge_headers headers header) {
          payload_length = length (merged bins deeper buffers header headers t) + 4;
        },
        merge_trees (bins ∷ deeper) ks t,
        made,
        read,
        record {
          trie_count = sums.trie_count;
          pos_inf_count = sums.pos_inf_count;
          neg_inf_count = sums.neg_inf_count;
          pos_zero_count = sums.pos_zero_count;
          neg_zero_count = sums.neg_zero_count;
          nan_count = sums.nan_count;
        },
        merge_headers-config headers header,
        refl,
        behind,
        merge_trees-IsSum (bins ∷ deeper) ks t
            (λ k h.
              (stored k (ground (arith, member bins deeper buffers header headers t k, h))).tree)
            small,
      )
