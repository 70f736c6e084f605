-- ===== src/Merge/Stored.antt =====
-- The merge of whole buffers.
use mathlib.Core.List.{append_assoc, append-nil}
use air_tree.Common.{
  ℕ, zero, suc, ◌+◌, ◌-◌, ◌^◌, ◌<◌, ◌≡◌, ◌∙◌, refl, sym, ap, arith, some, List, [], ◌∷◌, ◌++◌,
  length, length-append, at_or, map, leb, ltb, lt→ltb, ◌&&◌, AreBytes-append,
}
use air_tree.SetBits.Member.{mem}
use air_tree.SetBits.Order.{Ascends}
use air_tree.Header.Bytes.{ok}
use air_tree.Header.{AirTreeHeader, serialize_header, deserialize_header}
use air_tree.Header.RoundTrip.{IsWire, HasByteTypes, finalize_header-front}
use air_tree.Node.{write_end_of_file_marker, verify_end_of_file_marker}
use air_tree.Node.RoundTrip.{verify-write_end_of_file_marker}
use air_tree.Merge.Trees.{Tree, IsTree, encode, merge_trees, NoOverflow}
use air_tree.Merge.Placed.{Placed, first-Placed, later-Placed}
use air_tree.Merge.Count.{AreTrees, merge_trees-IsTree, encode-AreBytes}
use air_tree.Merge.Refine.{Standing}
use air_tree.Merge.Whole.{merge_subtree-Grows}
use air_tree.Merge.Streaming.{
  add_header, merge_headers, inputs_from, all_end, finish_merge, finalize_merged, merge_streaming,
}

abbrev pub end_marker : List ℕ
end_marker = 0xFF ∷ 0xFF ∷ 0xFF ∷ 0xFF ∷ []

inputs_from-Ascends : (n k : ℕ) → Ascends k (inputs_from n k)
inputs_from-Ascends zero k = tt
inputs_from-Ascends (suc n) k = (omega arith, inputs_from-Ascends n (suc k))

mem-inputs_from : (n k j : ℕ) → mem j (inputs_from n k) ≡ (leb k j && ltb j (k + n))
mem-inputs_from zero k j = ground arith
mem-inputs_from (suc n) k j = rw (mem-inputs_from n (suc k) j) (ground arith)

verify-end_marker :
    (buffer : List ℕ) (offset : ℕ)
    → Placed buffer offset end_marker
    → (end : ℕ) × (verify_end_of_file_marker buffer offset ≡ some end)
unfolding write_end_of_file_marker
verify-end_marker buffer offset p = (
  length (write_end_of_file_marker p.front),
  rw (p.start, p.place) (verify-write_end_of_file_marker p.front p.rest),
)

all_end-some :
    (buffers : List (List ℕ)) (offsets : List ℕ)
    → ((k : ℕ)
        → k < length buffers
        → (end : ℕ) × (verify_end_of_file_marker (at_or [] buffers k) (at_or 0 offsets k)
            ≡ some end))
    → all_end buffers offsets ≡ some tt
unfolding all_end
all_end-some [] offsets ends = refl
all_end-some (buffer ∷ buffers) [] ends = refl
all_end-some (buffer ∷ buffers) (offset ∷ offsets) ends =
    let (end, first) = ends 0 (omega arith) in
    let here : verify_end_of_file_marker buffer offset ≡ some end = first in
    rw (all_end, here) (all_end-some buffers offsets (λ k h. ends (suc k) (omega arith)))

-- A buffer to be merged: behind its header, the bytes of a well-formed trie, and the end marker.
pub record IsStored (bins : ℕ) (deeper buffer : List ℕ) (offset : ℕ) (t : Tree (bins ∷ deeper))
    : Type 0 where
  pub tree : IsTree (bins ∷ deeper) t
  pub placed : Placed buffer offset (encode (bins ∷ deeper) t ++ end_marker)

finish_merge-ends :
    (n : ℕ) (buffers : List (List ℕ)) (after out : List ℕ)
    → all_end buffers after ≡ some tt
    → finish_merge n buffers (some (after, out)) ≡ finalize_merged n out
unfolding finish_merge
finish_merge-ends n buffers after out ends = rw (finish_merge, ends) refl

pub add_header-IsWire : (h g : AirTreeHeader) → IsWire h → IsWire (add_header h g)
add_header-IsWire h g w = record {
  version = w.version;
  header_length = w.header_length;
  known = w.known;
  trie_count = omega arith;
  pos_inf_count = omega arith;
  neg_inf_count = omega arith;
  pos_zero_count = omega arith;
  neg_zero_count = omega arith;
  nan_count = omega arith;
}

merge_headers-IsWire :
    (hs : List AirTreeHeader) (h : AirTreeHeader) → IsWire h → IsWire (merge_headers hs h)
unfolding merge_headers
merge_headers-IsWire [] h w = w
merge_headers-IsWire (g ∷ hs) h w =
    merge_headers-IsWire hs (add_header h g) (add_header-IsWire h g w)

merge_headers-HasByteTypes :
    (hs : List AirTreeHeader) (h : AirTreeHeader)
    → HasByteTypes h
    → HasByteTypes (merge_headers hs h)
unfolding merge_headers
merge_headers-HasByteTypes [] h types = types
merge_headers-HasByteTypes (g ∷ hs) h types = merge_headers-HasByteTypes hs (add_header h g) types

module _ (bins : ℕ) (deeper : List ℕ) (buffers : List (List ℕ)) (header : AirTreeHeader)
    (headers : List AirTreeHeader) (t : ℕ → Tree (bins ∷ deeper)) where
  abbrev pub offsets : List ℕ
  offsets = map (λ h. h.header_length) (header ∷ headers)

  abbrev pub all : List ℕ
  all = inputs_from (length buffers) 0

  abbrev pub merged : List ℕ
  merged = encode (bins ∷ deeper) (merge_trees (bins ∷ deeper) all t)

  length-offsets : (hs : List AirTreeHeader) → length (map (λ h. h.header_length) hs) ≡ length hs
  length-offsets [] = refl
  length-offsets (h ∷ hs) = ap suc (length-offsets hs)

  -- Each input has its buffer.
  abbrev pub AllStored : Type 0
  AllStored =
      (k : ℕ)
      → k < length buffers
      → IsStored bins deeper (at_or [] buffers k) (at_or 0 offsets k) (t k)

  pub member : (k : ℕ) → mem k all ≡ ltb k (length buffers)
  member k = mem-inputs_from (length buffers) 0 k ∙ ground arith

  standing :
      length buffers ≡ length offsets → AllStored → Standing (bins ∷ deeper) buffers all t offsets
  standing same stored k h =
      let inside : k < length buffers = ground (arith, member k, h) in
      (
        omega (arith, same),
        inside,
        (stored k inside).tree,
        first-Placed (at_or [] buffers k) (at_or 0 offsets k) (encode (bins ∷ deeper) (t k))
            end_marker (stored k inside).placed,
      )

  -- The buffers are headers, of which the first is one of this version, with well-formed tries behind them
  -- and the end marker, and no sum of counts passes a `uint32_t`: their merge is a header, of which the
  -- counters are the sums, with the merged trie behind it and the end marker.
  pub merge_streaming-IsStored :
      length buffers ≡ suc (length headers)
      → IsWire header
      → HasByteTypes header
      → AllStored
      → NoOverflow (bins ∷ deeper) all t
      → length merged + 4 < 2 ^ 64
      → (buffer : List ℕ) × (merge_streaming buffers header headers (bins ∷ deeper)
          ≡ ok (some buffer))
        × (deserialize_header buffer
            ≡ ok (record (merge_headers headers header) { payload_length = length merged + 4 }))
        × IsStored bins deeper buffer 49 (merge_trees (bins ∷ deeper) all t)
  unfolding merge_streaming write_end_of_file_marker finalize_merged
  merge_streaming-IsStored same wire types stored small size =
      let trees : AreTrees (bins ∷ deeper) all t =
        λ k h. (stored k (ground (arith, member k, h))).tree in
      let tree = merge_trees-IsTree (bins ∷ deeper) all t trees small in
      let bytes = encode-AreBytes (bins ∷ deeper) (merge_trees (bins ∷ deeper) all t) tree in
      let h = merge_headers headers header in
      let out : List ℕ = serialize_header h [] in
      let payload : List ℕ = merged ++ end_marker in
      let as_many : length buffers ≡ length offsets =
        same ∙ sym (length-offsets (header ∷ headers)) in
      let (after, e, moved) =
        merge_subtree-Grows bins deeper buffers all t offsets out
          (inputs_from-Ascends (length buffers) 0) (standing as_many stored) small in
      let ends : all_end buffers after ≡ some tt = all_end-some buffers after (λ k inside.
        let there : at_or 0 after k ≡ at_or 0 offsets k + length (encode (bins ∷ deeper) (t k)) =
          moved.1 k ∙ rw (member k, lt→ltb k (length buffers) inside) refl in
        verify-end_marker (at_or [] buffers k) (at_or 0 after k) (
          rw there (
            later-Placed (at_or [] buffers k) (at_or 0 offsets k) (encode (bins ∷ deeper) (t k))
              end_marker (stored k inside).placed))) in
      let long : length payload ≡ length merged + 4 = length-append merged end_marker in
      let (front, front_bytes, front_size, out_size, out_bytes, finalized, read) =
        finalize_header-front h (length merged + 4) payload
          (merge_headers-IsWire headers header wire)
          (merge_headers-HasByteTypes headers header types) size in
      let length_behind : length (out ++ payload) - length out ≡ length merged + 4 =
        omega (arith, length-append out payload, long) in
      (
        front ++ payload,
        rw (e, finish_merge-ends (length out) buffers after (out ++ merged) ends)
            (rw (append_assoc out merged end_marker, length_behind, finalized) refl),
        read,
        record {
          tree = tree;
          placed = record {
            front = front;
            rest = [];
            place = sym (append-nil (front ++ payload));
            start = sym front_size;
            front_bytes = front_bytes;
            own_bytes =
                AreBytes-append merged end_marker bytes
                  (omega arith, (omega arith, (omega arith, (omega arith, tt))));
            rest_bytes = tt;
          };
        },
      )
