-- ===== src/Mask/RoundTrip.antt =====
-- A mask that was written is read back.
use mathlib.Core.List.{append_assoc}
use air_tree.Common.{
  ℕ, suc, ◌+◌, ◌*◌, ◌^◌, ◌<◌, ◌≡◌, ◌↔◌, false, ◌∙◌, refl, sym, ap, arith, none, some, List, [], ◌∷◌,
  ◌++◌, ltb, le→not_ltb, at_or, length, length-append,
}
use air_tree.Header.Values.{le64, le64_loop}
use air_tree.Mask.{
  mask_words, bytes_of_word, bytes_of_words, write_populated_mask, load_loop, load_words,
  read_populated_mask,
}

abbrev pub AreWords : List ℕ → Type 0
AreWords [] = Unit {0}
AreWords (w ∷ words) = (w < 2 ^ 64) × AreWords words

pub at_or-append :
    (front ys : List ℕ) (i : ℕ) → at_or 0 (front ++ ys) (length front + i) ≡ at_or 0 ys i
at_or-append [] ys i = ap (λ (t : ℕ). at_or 0 ys t) (omega arith)
at_or-append (x ∷ front) ys i =
    let next : length (x ∷ front) + i ≡ suc (length front + i) = omega arith in
    rw next (at_or-append front ys i)

load_word :
    (front rest : List ℕ) (w : ℕ)
    → w < 2 ^ 64
    → load_loop 8 0 (front ++ (bytes_of_word w ++ rest)) (length front) 0 ≡ w
unfolding load_loop le64_loop
load_word front rest w h = simp at_or-append (le64 w h)

load_words-bytes_of_words :
    (words front rest : List ℕ)
    → AreWords words
    → load_words
        (length words)
        (front ++ (bytes_of_words (length words) words ++ rest))
        (length front)
      ≡ words
unfolding load_words bytes_of_words
load_words-bytes_of_words [] front rest h = refl
load_words-bytes_of_words (w ∷ words) front rest h =
    let n = length words in
    let behind : List ℕ = bytes_of_words n words ++ rest in
    let here = load_word front behind w h.0 in
    let moved : length (front ++ bytes_of_word w) ≡ length front + 8 =
      length-append front (bytes_of_word w) in
    let there : load_words n (front ++ (bytes_of_word w ++ behind)) (length front + 8) ≡ words =
      ap (λ (b : List ℕ). load_words n b (length front + 8))
        (sym (append_assoc front (bytes_of_word w) behind))
      ∙ ap (λ (p : ℕ). load_words n ((front ++ bytes_of_word w) ++ behind) p) (sym moved)
      ∙ load_words-bytes_of_words words (front ++ bytes_of_word w) rest h.1 in
    ap (λ (t : ℕ). t ∷ load_words n (front ++ (bytes_of_word w ++ behind)) (length front + 8)) here
    ∙ ap (λ (t : List ℕ). w ∷ t) there

pub length-bytes_of_words :
    (words : List ℕ) → length (bytes_of_words (length words) words) ≡ length words * 8
unfolding bytes_of_words
length-bytes_of_words [] = omega arith
length-bytes_of_words (w ∷ words) = omega (arith, length-bytes_of_words words)

-- The words of a mask, as many as its bins need, each of 64 bits, are read back from behind whatever
-- was written before, whatever follows them,
-- and the offset moves behind them.
pub read-write_populated_mask :
    (words : List ℕ) (bins : ℕ) (out rest : List ℕ)
    → AreWords words
    → length words ≡ mask_words bins
    → read_populated_mask (write_populated_mask words bins out ++ rest) (length out) bins
      ≡ some (words, length (write_populated_mask words bins out))
unfolding read_populated_mask write_populated_mask
read-write_populated_mask words bins out rest h size =
    let bytes : List ℕ = bytes_of_words (length words) words in
    let grown : length (out ++ bytes) ≡ length out + length words * 8 =
      length-append out bytes ∙ omega (arith, length-bytes_of_words words) in
    let inside : ltb (length ((out ++ bytes) ++ rest)) (length out + length words * 8) ≡ false =
      le→not_ltb _ _ (omega (arith, length-append (out ++ bytes) rest, grown)) in
    let loaded : load_words (length words) ((out ++ bytes) ++ rest) (length out) ≡ words =
      ap (λ (b : List ℕ). load_words (length words) b (length out)) (append_assoc out bytes rest)
      ∙ load_words-bytes_of_words words out rest h in
    rw (← size, inside, loaded, grown) refl

-- A mask is refused exactly if it does not lie whole inside the buffer.
pub read_populated_mask-short :
    (buffer : List ℕ) (offset bins : ℕ)
    → (read_populated_mask buffer offset bins ≡ none)
      ↔ (length buffer < offset + mask_words bins * 8)
unfolding read_populated_mask
read_populated_mask-short buffer offset bins = ground arith
