-- ===== src/Merge/AirTrees.antt =====
-- airtree-merge/src/NWayMerge.cpp, `mergeAirTrees`: the checks of the headers, and the choice of the merge.
-- `mergeAirTree`, the merge of two buffers that configurations of several dimensions come to, is an argument
-- `merge_two`. The exceptions that mergeAirTrees throws itself are `ok none`.
use air_tree.Common.{
  ℕ, zero, suc, ◌<◌, ◌≤◌, ◌≡◌, sym, refl, ap, arith, Bool, true, not, ◌&&◌, ◌==◌, Bool-cases, inl,
  inr, if◌then◌else◌, Option, none, some, List, [], ◌∷◌, length, at_or,
}
use air_tree.Header.Bytes.{Result, ok, ◌>>=◌}
use air_tree.Header.{AirTreeHeader, deserialize_header}
use air_tree.Header.Accept.{bind_ok}
use air_tree.Merge.Streaming.{streaming_levels, merge_streaming}

unfoldable pub read_headers : List (List ℕ) → Result (List AirTreeHeader)
read_headers [] = ok []
read_headers (b ∷ buffers) = do h ← deserialize_header b; hs ← read_headers buffers; ok (h ∷ hs)

-- Whether every header has the configuration `config`.
unfoldable pub same_config : ℕ → List AirTreeHeader → Bool
same_config config [] = true
same_config config (h ∷ hs) = h.config == config && same_config config hs

-- The loop of the pairwise fold.
unfoldable pub fold_merge :
    (List ℕ → List ℕ → Result (Option (List ℕ))) → List (List ℕ) → List ℕ → Result (Option (List ℕ))
fold_merge merge_two [] acc = ok (some acc)
fold_merge merge_two (b ∷ buffers) acc =
    let rest = fold_merge merge_two buffers in
    merge_two acc b >>= (λ merged. elim merged [ none ↦ ok none | some acc' ↦ rest acc' ])

-- The merge of buffers of a configuration with these levels.
unfoldable pub merge_several :
    (List ℕ → List ℕ → Result (Option (List ℕ)))
    → List ℕ
    → List ℕ
    → List (List ℕ)
    → AirTreeHeader
    → List AirTreeHeader
    → Result (Option (List ℕ))
merge_several merge_two [] b buffers h hs = fold_merge merge_two buffers b
merge_several merge_two (bins ∷ deeper) b buffers h hs =
    merge_streaming (b ∷ buffers) h hs (bins ∷ deeper)

-- What follows the reading of the headers.
unfoldable pub merge_read :
    (List ℕ → List ℕ → Result (Option (List ℕ)))
    → List ℕ
    → List (List ℕ)
    → List AirTreeHeader
    → Result (Option (List ℕ))
merge_read merge_two b buffers [] = ok none
merge_read merge_two b buffers (h ∷ hs) =
    if not (same_config h.config (h ∷ hs))
    then ok none
    else if length (b ∷ buffers) == 1
    then ok (some b)
    else merge_several merge_two (streaming_levels h.config) b buffers h hs

unfoldable pub merge_air_trees :
    (List ℕ → List ℕ → Result (Option (List ℕ))) → List (List ℕ) → Result (Option (List ℕ))
merge_air_trees merge_two [] = ok none
merge_air_trees merge_two (b ∷ buffers) = do
  headers ← read_headers (b ∷ buffers)
  merge_read merge_two b buffers headers

same_list : {g h : List AirTreeHeader} → ◌≡◌ {A = Result (List AirTreeHeader)} (ok g) (ok h) → g ≡ h
same_list e = cc

-- Headers that were read are those of the buffers.
AreRead : AirTreeHeader → List (List ℕ) → List AirTreeHeader → Type 0
AreRead first buffers hs =
    (length hs ≡ length buffers)
    × ((k : ℕ)
        → k < length buffers
        → deserialize_header (at_or [] buffers k) ≡ ok (at_or first hs k))

read_headers-AreRead :
    (first : AirTreeHeader) (buffers : List (List ℕ)) (hs : List AirTreeHeader)
    → read_headers buffers ≡ ok hs
    → AreRead first buffers hs
unfolding read_headers AreRead
read_headers-AreRead first [] hs e =
    let none_read : [] ≡ hs = same_list e in
    (ap length (sym none_read), λ k h. absurd (omega arith))
read_headers-AreRead first (b ∷ buffers) hs e =
    let (h, read, e1) = bind_ok (deserialize_header b) _ hs e in
    let (others, rest, e2) = bind_ok (read_headers buffers) _ hs e1 in
    let whole : h ∷ others ≡ hs = same_list e2 in
    let (size, each) = read_headers-AreRead first buffers others rest in
    rw (← whole) (ap suc size, at_each b buffers h others read each)
  where
    at_each :
        (b : List ℕ) (buffers : List (List ℕ)) (h : AirTreeHeader) (others : List AirTreeHeader)
        → deserialize_header b ≡ ok h
        → ((k : ℕ)
            → k < length buffers
            → deserialize_header (at_or [] buffers k) ≡ ok (at_or first others k))
        → (k : ℕ) → k < length (b ∷ buffers)
        → deserialize_header (at_or [] (b ∷ buffers) k) ≡ ok (at_or first (h ∷ others) k)
    at_each b buffers h others read each zero inside = read
    at_each b buffers h others read each (suc k) inside = each k (omega arith)

same_config-each :
    (first : AirTreeHeader) (hs : List AirTreeHeader) (config k : ℕ)
    → same_config config hs ≡ true
    → k < length hs
    → (at_or first hs k).config ≡ config
unfolding same_config
same_config-each first [] config k same inside = absurd (omega arith)
same_config-each first (h ∷ hs) config zero same inside = ground (arith, same)
same_config-each first (h ∷ hs) config (suc k) same inside =
    same_config-each first hs config k (ground (arith, same)) (omega arith)

nothing_merged :
    (out : List ℕ) → ◌≡◌ {A = Result (Option (List ℕ))} (ok none) (ok (some out)) → 1 ≤ 0
nothing_merged out e = cc

Accepted : List (List ℕ) → AirTreeHeader → List AirTreeHeader → Type 0
Accepted buffers h hs =
    (length (h ∷ hs) ≡ length buffers)
    × ((k : ℕ)
        → k < length buffers
        → (deserialize_header (at_or [] buffers k) ≡ ok (at_or h (h ∷ hs) k))
          × ((at_or h (h ∷ hs) k).config ≡ h.config))

merge_read-Accepted :
    (merge_two : List ℕ → List ℕ → Result (Option (List ℕ))) (b : List ℕ) (buffers : List (List ℕ))
    (headers : List AirTreeHeader) (out : List ℕ)
    → read_headers (b ∷ buffers) ≡ ok headers
    → merge_read merge_two b buffers headers ≡ ok (some out)
    → (h : AirTreeHeader) × (hs : List AirTreeHeader) × Accepted (b ∷ buffers) h hs
unfolding merge_read AreRead Accepted
merge_read-Accepted merge_two b buffers [] out read e = absurd (omega (arith, nothing_merged out e))
merge_read-Accepted merge_two b buffers (h ∷ hs) out read e =
    elim (Bool-cases (same_config h.config (h ∷ hs))) [
      | inl same ↦
          let (size, each) = read_headers-AreRead h (b ∷ buffers) (h ∷ hs) read in
          (
            h,
            hs,
            (
              size,
              λ k inside. (
                each k inside,
                same_config-each h (h ∷ hs) h.config k same (omega (arith, size)),
              ),
            ),
          )
      | inr other ↦
          let refused : ◌≡◌ {A = Result (Option (List ℕ))} (ok none) (ok (some out)) =
            rw other at e in
          absurd (omega (arith, nothing_merged out refused))
    ]

-- If mergeAirTrees returns a buffer, then it was given one at least, the headers of all are read, and they have
-- the configuration of the first.
pub merge_air_trees-accepts :
    (merge_two : List ℕ → List ℕ → Result (Option (List ℕ))) (buffers : List (List ℕ))
    (out : List ℕ)
    → merge_air_trees merge_two buffers ≡ ok (some out)
    → (h : AirTreeHeader) × (hs : List AirTreeHeader) × (length (h ∷ hs) ≡ length buffers)
      × ((k : ℕ)
          → k < length buffers
          → (deserialize_header (at_or [] buffers k) ≡ ok (at_or h (h ∷ hs) k))
            × ((at_or h (h ∷ hs) k).config ≡ h.config))
unfolding merge_air_trees Accepted
merge_air_trees-accepts merge_two [] out e = absurd (omega (arith, nothing_merged out e))
merge_air_trees-accepts merge_two (b ∷ buffers) out e =
    let (headers, read, e1) = bind_ok (read_headers (b ∷ buffers)) _ (some out) e in
    let (h, hs, accepted) = merge_read-Accepted merge_two b buffers headers out read e1 in
    (h, hs, accepted.0, accepted.1)

-- Two buffers of one configuration with levels, of which the headers can be read, are merged by mergeStreaming.
pub merge_air_trees-streaming :
    (merge_two : List ℕ → List ℕ → Result (Option (List ℕ))) (a b : List ℕ) (ha hb : AirTreeHeader)
    (bins : ℕ) (deeper : List ℕ)
    → deserialize_header a ≡ ok ha
    → deserialize_header b ≡ ok hb
    → ha.config ≡ hb.config
    → streaming_levels ha.config ≡ bins ∷ deeper
    → merge_air_trees merge_two (a ∷ b ∷ [])
      ≡ merge_streaming (a ∷ b ∷ []) ha (hb ∷ []) (bins ∷ deeper)
unfolding merge_air_trees read_headers merge_read same_config merge_several
merge_air_trees-streaming merge_two a b ha hb bins deeper read_a read_b same levels =
    let first : (ha.config == ha.config) ≡ true = ground arith in
    let second : (hb.config == ha.config) ≡ true = ground (arith, same) in
    rw (read_a, read_b, first, second, levels) refl
