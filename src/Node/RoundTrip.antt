-- ===== src/Node/RoundTrip.antt =====
-- A node that was written is read back.
use mathlib.Core.List.{append_assoc}
use air_tree.Common.{
  AreBytes, AreBytes-append, ℕ, zero, suc, ◌+◌, ◌*◌, ◌/◌, ◌^◌, ◌<◌, ◌≤◌, ◌≡◌, ◌∙◌, refl, sym, ap,
  arith, List, [], ◌∷◌, ◌++◌, ◌==◌, ltb, not, length, false, at_or, le→not_ltb, at_or-beyond,
  at_or-replicate, length-replicate, list_ext, replicate, some, length-append,
}
use air_tree.Mask.{
  mask_words, write_populated_mask, read_populated_mask, bytes_of_words, bytes_of_word,
}
use air_tree.Header.Values.{byte_of-lt}
use air_tree.Mask.RoundTrip.{
  AreWords, at_or-append, length-bytes_of_words, read-write_populated_mask,
}
use air_tree.Populated.{test}
use air_tree.SetBits.{set_bits}
use air_tree.SetBits.Ones.{length-set_bits-le}
use native.Mathlib.Nat.{mul-le-mul}
use air_tree.SetBits.Member.{
  AllBelow, mem-set_bits, set_bits-AllBelow, put_all, length-put_all, at_or-put_all,
}
use air_tree.Count.Number.{spell, spell-AreBytes, length-spell}
use air_tree.Count.Writer.{Fits, packed, serialize_counts-spell}
use air_tree.Count.RoundTrip.{read_packed}
use air_tree.Node.{
  write_node, read_node, read_node_into, skip_node, write_end_of_file_marker,
  verify_end_of_file_marker,
}

-- A node with this mask and these counts: the mask has the bins whose 32-bit count is not 0.
pub record IsNode (bins : ℕ) (mask counts : List ℕ) : Type 0 where
  pub words : AreWords mask
  pub mask_size : length mask ≡ mask_words bins
  pub size : length counts ≡ bins
  pub fits : (j : ℕ) → at_or 0 counts j < 2 ^ 32
  pub marks : (j : ℕ) → test mask j ≡ not (at_or 0 counts j == 0)

-- The bytes of a node: what is written for it, and what it is read from.
pub record IsBytes (bins : ℕ) (mask counts tail : List ℕ) : Type 0 where
  pub bytes : AreBytes tail
  pub size : length tail ≤ 264 * mask_words bins + 1
  pub written : (out : List ℕ) → write_node mask bins counts out ≡ some (out ++ tail)
  pub read :
      (out rest counted : List ℕ)
      → AreBytes out
      → AreBytes rest
      → read_node_into ((out ++ tail) ++ rest) (length out) bins counted
        ≡ some (mask, put_all 0 (set_bits mask bins) counts counted, length (out ++ tail))
  pub skipped :
      (out rest : List ℕ)
      → AreBytes out
      → AreBytes rest
      → skip_node ((out ++ tail) ++ rest) (length out) bins ≡ some (mask, length (out ++ tail))

all-Fits : (is counts : List ℕ) → ((j : ℕ) → at_or 0 counts j < 2 ^ 32) → Fits 32 counts is
all-Fits [] counts h = tt
all-Fits (i ∷ is) counts h = (h i, all-Fits is counts h)

bytes_of_word-AreBytes : (w : ℕ) → AreBytes (bytes_of_word w)
bytes_of_word-AreBytes w = (
  byte_of-lt w 0,
  (
    byte_of-lt w 1,
    (
      byte_of-lt w 2,
      (byte_of-lt w 3, (byte_of-lt w 4, (byte_of-lt w 5, (byte_of-lt w 6, (byte_of-lt w 7, tt))))),
    ),
  ),
)

bytes_of_words-AreBytes : (n : ℕ) (words : List ℕ) → AreBytes (bytes_of_words n words)
unfolding bytes_of_words
bytes_of_words-AreBytes zero words = tt
bytes_of_words-AreBytes (suc n) [] = tt
bytes_of_words-AreBytes (suc n) (w ∷ words) =
    AreBytes-append (bytes_of_word w) (bytes_of_words n words) (bytes_of_word-AreBytes w)
      (bytes_of_words-AreBytes n words)

module _ (bins : ℕ) (mask counts : List ℕ) (node : IsNode bins mask counts) where
  pub bins-AllBelow : AllBelow bins (set_bits mask bins)
  bins-AllBelow =
      set_bits-AllBelow mask bins node.words node.mask_size
        (λ j h. node.marks j ∙ rw (at_or-beyond 0 counts j (omega (arith, node.size))) refl)

  put_back : put_all 0 (set_bits mask bins) counts (replicate bins 0) ≡ counts
  put_back =
      let is = set_bits mask bins in
      let zeros = replicate {A = ℕ} bins 0 in
      let zero_size : length zeros ≡ bins = length-replicate bins 0 in
      let below : AllBelow (length zeros) is = rw zero_size bins-AllBelow in
      list_ext 0 (put_all 0 is counts zeros) counts
        (length-put_all 0 is counts zeros ∙ zero_size ∙ sym node.size)
        (λ j h.
          at_or-put_all 0 is counts zeros j below
          ∙ rw
              (
                mem-set_bits mask bins j node.words node.mask_size,
                node.marks j,
                at_or-replicate {A = ℕ} 0 bins j,
              )
              (ground arith))

  node_size :
      (b : ℕ)
      → b ≤ 32
      → let is = set_bits mask bins in
        let n = (length is * b + 7) / 8 in
        length (bytes_of_words (mask_words bins) mask ++ (b ∷ spell n (packed b counts is)))
        ≤ 264 * mask_words bins + 1
  node_size b high =
      let is = set_bits mask bins in
      let n = (length is * b + 7) / 8 in
      let front : length (bytes_of_words (mask_words bins) mask) ≡ mask_words bins * 8 =
        ap (λ (t : ℕ). length (bytes_of_words t mask)) (sym node.mask_size)
        ∙ length-bytes_of_words mask
        ∙ ap (λ (t : ℕ). t * 8) node.mask_size in
      let packed_bits : length is * b ≤ mask_words bins * 64 * 32 =
        mul-le-mul (length-set_bits-le mask bins node.words) high in
      omega (
        arith,
        length-append (bytes_of_words (mask_words bins) mask) (b ∷ spell n (packed b counts is)),
        front,
        length-spell n (packed b counts is),
        packed_bits,
      )

  -- The bytes of the node do not depend on what was written before, and the node is read from them.
  pub node-IsBytes : (tail : List ℕ) × IsBytes bins mask counts tail
  unfolding write_node read_node_into skip_node write_populated_mask
  node-IsBytes =
      let is = set_bits mask bins in
      let words : List ℕ = bytes_of_words (mask_words bins) mask in
      let masked = bytes_of_words-AreBytes (mask_words bins) mask in
      let (b, low, high, fits, wrote) =
        serialize_counts-spell mask bins counts (all-Fits is counts node.fits) in
      let tail : List ℕ = b ∷ spell ((length is * b + 7) / 8) (packed b counts is) in
      let behind : AreBytes tail = (omega arith, spell-AreBytes _ _) in
      let front : (out rest : List ℕ)
          → read_populated_mask (((out ++ words) ++ tail) ++ rest) (length out) bins
            ≡ some (mask, length (out ++ words)) =
        λ out rest.
          ap (λ (t : List ℕ). read_populated_mask t (length out) bins)
            (append_assoc (out ++ words) tail rest)
          ∙ read-write_populated_mask mask bins out (tail ++ rest) node.words node.mask_size in
      (
        words ++ tail,
        record {
          bytes = AreBytes-append words tail masked behind;
          size = node_size b high;
          written = λ out. wrote (out ++ words) ∙ ap some (append_assoc out words tail);
          read = λ out rest counted before after.
              let (filled, past) =
                read_packed mask bins counts counted (out ++ words) rest b node.words bins-AllBelow
                  high fits (AreBytes-append out words before masked) after in
              rw (← append_assoc out words tail, front out rest, filled) refl;
          skipped = λ out rest before after.
              let (filled, past) =
                read_packed mask bins counts [] (out ++ words) rest b node.words bins-AllBelow high
                  fits (AreBytes-append out words before masked) after in
              rw (← append_assoc out words tail, front out rest, past) refl;
        },
      )

  -- A new node gets the counts back.
  pub node_read :
      (tail out rest : List ℕ)
      → IsBytes bins mask counts tail
      → AreBytes out
      → AreBytes rest
      → read_node ((out ++ tail) ++ rest) (length out) bins
        ≡ some (mask, counts, length (out ++ tail))
  unfolding read_node
  node_read tail out rest b before after =
      b.read out rest (replicate bins 0) before after
      ∙ ap (λ (t : List ℕ). some (mask, t, length (out ++ tail))) put_back

-- A node that is written behind some bytes, and before others, is read back whole: its mask, its counts and
-- the offset behind it.
pub read_node-write_node :
    (bins : ℕ) (mask counts out rest : List ℕ)
    → IsNode bins mask counts
    → AreBytes out
    → AreBytes rest
    → (written : List ℕ) × (write_node mask bins counts out ≡ some written)
      × (read_node (written ++ rest) (length out) bins ≡ some (mask, counts, length written))
read_node-write_node bins mask counts out rest node before after =
    let (tail, b) = node-IsBytes bins mask counts node in
    (out ++ tail, b.written out, node_read bins mask counts node tail out rest b before after)

-- The marker that was written is verified, whatever bytes follow.
pub verify-write_end_of_file_marker :
    (out rest : List ℕ)
    → verify_end_of_file_marker (write_end_of_file_marker out ++ rest) (length out)
      ≡ some (length (write_end_of_file_marker out))
unfolding verify_end_of_file_marker write_end_of_file_marker
verify-write_end_of_file_marker out rest =
    let mark : List ℕ = 0xFF ∷ 0xFF ∷ 0xFF ∷ 0xFF ∷ [] in
    let size : length (out ++ mark) ≡ length out + 4 = length-append out mark in
    let inside : ltb (length ((out ++ mark) ++ rest)) (length out + 4) ≡ false =
      le→not_ltb _ _ (omega (arith, length-append (out ++ mark) rest, size)) in
    let start : length out ≡ length out + 0 = omega arith in
    let first : at_or 0 (out ++ (mark ++ rest)) (length out) ≡ 0xFF =
      ap (λ (t : ℕ). at_or 0 (out ++ (mark ++ rest)) t) start ∙ at_or-append out (mark ++ rest) 0 in
    rw
      (
        inside,
        append_assoc out mark rest,
        first,
        at_or-append out (mark ++ rest) 1,
        at_or-append out (mark ++ rest) 2,
        at_or-append out (mark ++ rest) 3,
        size,
      )
      refl
