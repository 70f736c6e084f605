-- ===== src/Merge/Gather.antt =====
-- What the loop over the inputs gathers.
use air_tree.Common.{
  ℕ, suc, ◌+◌, ◌%◌, ◌^◌, ◌<◌, ◌≡◌, ◌∙◌, refl, arith, false, Bool-cases, inl, inr, ◌==◌,
  if◌then◌else◌, List, [], ◌∷◌, length, at_or, modify, at_or-modify, length-modify, some,
}
use native.Mathlib.Nat.{mod-eq_of_lt}
use air_tree.SetBits.{set_bits}
use air_tree.SetBits.Member.{mem, mem-set_bits, AllBelow, put_all, length-put_all, at_or-put_all}
use air_tree.SetBits.Order.{Ascends, Ascends-weaken, mem-below, set_bits-Ascends}
use air_tree.Node.RoundTrip.{IsNode, bins-AllBelow}
use air_tree.Merge.{Gathered, accumulate, take_input, gather}
use air_tree.Merge.Trees.{node_bytes, total, union_all}
use air_tree.Merge.Placed.{Placed, placed_read}
use air_tree.Merge.Skip.{node_bytes-IsBytes}

length-accumulate : (is tmp acc : List ℕ) → length (accumulate is tmp acc) ≡ length acc
unfolding accumulate
length-accumulate [] tmp acc = refl
length-accumulate (i ∷ is) tmp acc =
    length-accumulate is tmp (modify i (λ c. (c + at_or 0 tmp i) % 2 ^ 32) acc)
    ∙ length-modify i _ acc

at_or-accumulate :
    (lo : ℕ) (is tmp acc : List ℕ) (j : ℕ)
    → Ascends lo is
    → AllBelow (length acc) is
    → at_or 0 (accumulate is tmp acc) j
      ≡ (if mem j is then (at_or 0 acc j + at_or 0 tmp j) % 2 ^ 32 else at_or 0 acc j)
unfolding accumulate
at_or-accumulate lo [] tmp acc j up below = refl
at_or-accumulate lo (i ∷ is) tmp acc j up below =
    let f : ℕ → ℕ = λ c. (c + at_or 0 tmp i) % 2 ^ 32 in
    let kept : AllBelow (length (modify i f acc)) is = rw (length-modify i f acc) below.1 in
    rw
      (
        at_or-accumulate (suc i) is tmp (modify i f acc) j up.1 kept,
        at_or-modify 0 i f acc j below.0,
      )
      (elim (Bool-cases (i == j)) [
        | inl here ↦
            let same : i ≡ j = ground arith in
            rw (here, same, mem-below (suc i) j is (omega arith) up.1) refl
        | inr there ↦ rw there refl
      ])

module _ (bins : ℕ) (buffers : List (List ℕ)) (masks counts : ℕ → List ℕ) where
  abbrev top : ℕ → List ℕ
  top k = node_bytes bins (masks k) (counts k)

  -- The inputs stand before their nodes.
  abbrev pub Ready : List ℕ → Gathered → Type 0
  Ready [] g = Unit {0}
  Ready (k ∷ ks) g =
      ((k < length g.offsets)
        × (k < length g.masks)
        × IsNode bins (masks k) (counts k)
        × Placed (at_or [] buffers k) (at_or 0 g.offsets k) (top k))
      × Ready ks g

  -- What the loop leaves.
  pub record Result (ks : List ℕ) (g after : Gathered) : Type 0 where
    pub offsets_size : length after.offsets ≡ length g.offsets
    pub offset :
        (j : ℕ)
        → at_or 0 after.offsets j
          ≡ (if mem j ks then at_or 0 g.offsets j + length (top j) else at_or 0 g.offsets j)
    pub mask : (j : ℕ) → at_or [] after.masks j ≡ (if mem j ks then masks j else at_or [] g.masks j)
    pub merged : after.merged ≡ union_all g.merged masks ks
    pub acc_size : length after.acc ≡ length g.acc
    pub acc : (i : ℕ) → at_or 0 after.acc i ≡ at_or 0 g.acc i + total (λ k. at_or 0 (counts k) i) ks

  -- A round for input `k`.
  abbrev round : ℕ → Gathered → Gathered
  round k g =
      take_input bins k
        (
          masks k,
          put_all 0 (set_bits (masks k) bins) (counts k) g.tmp,
          at_or 0 g.offsets k + length (top k),
        )
        g

  round_acc :
      (k i : ℕ) (g : Gathered)
      → IsNode bins (masks k) (counts k)
      → length g.acc ≡ bins
      → length g.tmp ≡ bins
      → at_or 0 g.acc i + at_or 0 (counts k) i < 2 ^ 32
      → at_or 0 (round k g).acc i ≡ at_or 0 g.acc i + at_or 0 (counts k) i
  unfolding take_input
  round_acc k i g node acc_size tmp_size small =
      let is = set_bits (masks k) bins in
      let tmp = put_all 0 is (counts k) g.tmp in
      let inside = bins-AllBelow bins (masks k) (counts k) node in
      let in_acc : AllBelow (length g.acc) is = rw acc_size inside in
      let in_tmp : AllBelow (length g.tmp) is = rw tmp_size inside in
      at_or-accumulate 0 is tmp g.acc i (set_bits-Ascends (masks k) bins node.words) in_acc
      ∙ rw (at_or-put_all 0 is (counts k) g.tmp i in_tmp) (elim (Bool-cases (mem i is)) [
        | inl here ↦ rw here (mod-eq_of_lt small)
        | inr there ↦
            let empty : at_or 0 (counts k) i ≡ 0 = ground (
              arith,
              there,
              mem-set_bits (masks k) bins i node.words node.mask_size,
              node.marks i,
            ) in
            rw (there, empty) (omega arith)
      ])

  round_acc_size : (k : ℕ) (g : Gathered) → length (round k g).acc ≡ length g.acc
  unfolding take_input
  round_acc_size k g = length-accumulate (set_bits (masks k) bins) _ g.acc

  round_tmp_size : (k : ℕ) (g : Gathered) → length (round k g).tmp ≡ length g.tmp
  unfolding take_input
  round_tmp_size k g = length-put_all 0 (set_bits (masks k) bins) (counts k) g.tmp

  Ready-round :
      (k : ℕ) (ks : List ℕ) (g : Gathered)
      → k < length g.offsets
      → Ascends (suc k) ks
      → Ready ks g
      → Ready ks (round k g)
  unfolding take_input
  Ready-round k [] g h up ready = tt
  Ready-round k (j ∷ ks) g h up ready =
      let other : (k == j) ≡ false = ground (arith, up.0) in
      let (in_offsets, in_masks, node, placed) = ready.0 in
      let same : at_or 0 (round k g).offsets j ≡ at_or 0 g.offsets j =
        at_or-modify 0 k _ g.offsets j h ∙ rw other refl in
      (
        (
          rw (length-modify k _ g.offsets) in_offsets,
          rw (length-modify k _ g.masks) in_masks,
          node,
          rw same placed,
        ),
        Ready-round k ks g h (Ascends-weaken (suc j) (suc k) ks (omega (arith, up.0)) up.1) ready.1,
      )

  done : (g : Gathered) → Result [] g g
  done g = record {
    offsets_size = refl;
    offset = λ j. refl;
    mask = λ j. refl;
    merged = refl;
    acc_size = refl;
    acc = λ i. omega arith;
  }

  after_round :
      (k : ℕ) (ks : List ℕ) (g after : Gathered)
      → k < length g.offsets
      → k < length g.masks
      → Ascends (suc k) ks
      → ((i : ℕ) → at_or 0 (round k g).acc i ≡ at_or 0 g.acc i + at_or 0 (counts k) i)
      → Result ks (round k g) after
      → Result (k ∷ ks) g after
  unfolding take_input
  after_round k ks g after in_offsets in_masks up added r = record {
    offsets_size = r.offsets_size ∙ length-modify k _ g.offsets;
    offset = λ j.
        r.offset j
        ∙ rw
            (at_or-modify 0 k (λ offset. at_or 0 g.offsets k + length (top k)) g.offsets j
              in_offsets)
            (elim (Bool-cases (k == j)) [
              | inl here ↦
                  let same : k ≡ j = ground arith in
                  rw (here, ← same, mem-below (suc k) k ks (omega arith) up) refl
              | inr there ↦ rw there refl
            ]);
    mask = λ j.
        r.mask j
        ∙ rw (at_or-modify [] k (λ mask. masks k) g.masks j in_masks) (elim (Bool-cases (k == j)) [
          | inl here ↦
              let same : k ≡ j = ground arith in
              rw (here, ← same, mem-below (suc k) k ks (omega arith) up) refl
          | inr there ↦ rw there refl
        ]);
    merged = r.merged;
    acc_size = r.acc_size ∙ length-accumulate (set_bits (masks k) bins) _ g.acc;
    acc = λ i. r.acc i ∙ omega (arith, added i);
  }

  pub gather-Result :
      (lo : ℕ) (ks : List ℕ) (g : Gathered)
      → Ascends lo ks
      → Ready ks g
      → length g.acc ≡ bins
      → length g.tmp ≡ bins
      → ((i : ℕ) → at_or 0 g.acc i + total (λ k. at_or 0 (counts k) i) ks < 2 ^ 32)
      → (after : Gathered) × (gather bins buffers ks g ≡ some after) × Result ks g after
  unfolding gather
  gather-Result lo [] g up ready acc_size tmp_size small = (g, refl, done g)
  gather-Result lo (k ∷ ks) g up ready acc_size tmp_size small =
      let (in_offsets, in_masks, node, placed) = ready.0 in
      let read =
        placed_read (at_or [] buffers k) (at_or 0 g.offsets k) bins (masks k) (counts k) (top k)
          (node_bytes-IsBytes bins (masks k) (counts k) node) placed g.tmp in
      let added : (i : ℕ) → at_or 0 (round k g).acc i ≡ at_or 0 g.acc i + at_or 0 (counts k) i =
        λ i. round_acc k i g node acc_size tmp_size (omega (arith, small i)) in
      let (after, e, r) =
        gather-Result (suc k) ks (round k g) up.1 (Ready-round k ks g in_offsets up.1 ready.1)
          (round_acc_size k g ∙ acc_size) (round_tmp_size k g ∙ tmp_size)
          (λ i. omega (arith, small i, added i)) in
      (after, rw read e, after_round k ks g after in_offsets in_masks up.1 added r)
