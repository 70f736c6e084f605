-- ===== src/SetBits/Order.antt =====
-- The bins are visited in ascending order, each of them once.
use air_tree.Common.{
  ℕ, zero, suc, ◌+◌, ◌*◌, ◌/◌, ◌%◌, ◌<◌, ◌≤◌, ◌≡◌, ◌∙◌, refl, sym, ap, arith, Bool, List, [], ◌∷◌,
  ◌++◌, ◌==◌, ltb, if◌then◌else◌, Bool-cases, inl, inr, false, true, ◌&&◌,
}
use air_tree.Mask.{mask_words}
use air_tree.Mask.RoundTrip.{AreWords}
use air_tree.SetBits.{set_bits}
use air_tree.SetBits.Ones.{ones, word_ones, set_bits-ones}
use air_tree.SetBits.Member.{mem, AllBelow}

-- Ascending, from `lo` on.
abbrev pub Ascends : ℕ → List ℕ → Type 0
Ascends lo [] = Unit {0}
Ascends lo (i ∷ is) = (lo ≤ i) × Ascends (suc i) is

pub Ascends-weaken : (lo lo' : ℕ) (is : List ℕ) → lo' ≤ lo → Ascends lo is → Ascends lo' is
Ascends-weaken lo lo' [] le h = tt
Ascends-weaken lo lo' (i ∷ is) le h = (omega (arith, h.0), h.1)

pub mem-below : (lo j : ℕ) (is : List ℕ) → j < lo → Ascends lo is → mem j is ≡ false
mem-below lo j [] lt h = refl
mem-below lo j (i ∷ is) lt h =
    let other : (i == j) ≡ false = ground (arith, h.0) in
    rw (other, mem-below (suc i) j is (omega (arith, h.0)) h.1) refl

mem-head : (x : ℕ) (xs : List ℕ) → mem x (x ∷ xs) ≡ true
mem-head x xs = let here : (x == x) ≡ true = ground arith in rw here refl

head_le : (x y : ℕ) (ys : List ℕ) → Ascends (suc y) ys → mem x (y ∷ ys) ≡ true → y ≤ x
head_le x y ys h found = elim (Bool-cases (ltb x y)) [
  | inl below ↦
      let missing = mem-below y x (y ∷ ys) (ground arith) (omega arith, h) in
      absurd (ground (arith, missing, found))
  | inr above ↦ ground arith
]

-- Ascending lists with the same members are the same.
pub Ascends-unique :
    (lo lo' : ℕ) (xs ys : List ℕ)
    → Ascends lo xs
    → Ascends lo' ys
    → ((j : ℕ) → mem j xs ≡ mem j ys)
    → xs ≡ ys
Ascends-unique lo lo' [] [] h h' same = refl
Ascends-unique lo lo' [] (y ∷ ys) h h' same =
    let here : (y == y) ≡ true = ground arith in absurd (ground (arith, here, same y))
Ascends-unique lo lo' (x ∷ xs) [] h h' same =
    let here : (x == x) ≡ true = ground arith in absurd (ground (arith, here, same x))
Ascends-unique lo lo' (x ∷ xs) (y ∷ ys) h h' same =
    let le = head_le x y ys h'.1 (sym (same x) ∙ mem-head x xs) in
    let ge = head_le y x xs h.1 (same y ∙ mem-head y ys) in
    let e : x ≡ y = omega arith in
    let tails : xs ≡ ys = Ascends-unique (suc x) (suc y) xs ys h.1 h'.1 (λ j.
      elim (Bool-cases (x == j)) [
        | inl here ↦
            let j_low : j < suc x = ground arith in
            let j_low' : j < suc y = omega arith in
            mem-below (suc x) j xs j_low h.1 ∙ sym (mem-below (suc y) j ys j_low' h'.1)
        | inr there ↦
            let there' : (y == j) ≡ false = ground (arith, e) in
            ground (arith, there, there', same j)
      ]) in
    rw (e, tails) refl

abbrev pub filter : (ℕ → Bool) → List ℕ → List ℕ
filter p [] = []
filter p (i ∷ is) = let rest = filter p is in if p i then i ∷ rest else rest

pub mem-filter : (p : ℕ → Bool) (j : ℕ) (is : List ℕ) → mem j (filter p is) ≡ (mem j is && p j)
mem-filter p j [] = refl
mem-filter p j (i ∷ is) = elim (Bool-cases (p i)) [
  | inl kept ↦
      rw (kept, mem-filter p j is)
        (elim (Bool-cases (i == j)) [
          | inl here ↦
              let same : i ≡ j = ground arith in
              let pj : p j ≡ true = sym (ap p same) ∙ kept in rw (here, pj) refl
          | inr there ↦ rw there refl
        ])
  | inr dropped ↦
      rw (dropped, mem-filter p j is)
        (elim (Bool-cases (i == j)) [
          | inl here ↦
              let same : i ≡ j = ground arith in
              let pj : p j ≡ false = sym (ap p same) ∙ dropped in rw (here, pj) (ground arith)
          | inr there ↦ rw there refl
        ])
]

pub filter-Ascends :
    (p : ℕ → Bool) (lo : ℕ) (is : List ℕ) → Ascends lo is → Ascends lo (filter p is)
filter-Ascends p lo [] h = tt
filter-Ascends p lo (i ∷ is) h = elim (Bool-cases (p i)) [
  | inl kept ↦ rw kept (h.0, filter-Ascends p (suc i) is h.1)
  | inr dropped ↦ rw dropped (
      Ascends-weaken (suc i) lo (filter p is) (omega (arith, h.0))
        (filter-Ascends p (suc i) is h.1))
]

append-Ascends :
    (lo m : ℕ) (xs ys : List ℕ)
    → lo ≤ m
    → Ascends lo xs
    → AllBelow m xs
    → Ascends m ys
    → Ascends lo (xs ++ ys)
append-Ascends lo m [] ys le h below h' = Ascends-weaken m lo ys le h'
append-Ascends lo m (x ∷ xs) ys le h below h' =
    (h.0, append-Ascends (suc x) m xs ys (omega (arith, below.0)) h.1 below.1 h')

ones-Ascends : (n base m : ℕ) → Ascends base (ones n base m)
unfolding ones
ones-Ascends zero base m = tt
ones-Ascends (suc n) base m = elim (Bool-cases (m % 2 == 1)) [
  | inl odd ↦ rw odd (omega arith, ones-Ascends n (suc base) (m / 2))
  | inr even ↦ rw even (
      Ascends-weaken (suc base) base (ones n (suc base) (m / 2)) (omega arith)
        (ones-Ascends n (suc base) (m / 2)))
]

ones-AllBelow : (n base m top : ℕ) → base + n ≤ top → AllBelow top (ones n base m)
unfolding ones
ones-AllBelow zero base m top le = tt
ones-AllBelow (suc n) base m top le =
    let rest = ones-AllBelow n (suc base) (m / 2) top (omega arith) in
    elim (Bool-cases (m % 2 == 1)) [
      | inl odd ↦ rw odd (omega arith, rest)
      | inr even ↦ rw even rest
    ]

word_ones-Ascends : (n w : ℕ) (words : List ℕ) → Ascends (w * 64) (word_ones n w words)
unfolding word_ones
word_ones-Ascends zero w words = tt
word_ones-Ascends (suc n) w [] = tt
word_ones-Ascends (suc n) w (m ∷ words) =
    append-Ascends (w * 64) (suc w * 64) (ones 64 (w * 64) m) (word_ones n (suc w) words)
      (omega arith) (ones-Ascends 64 (w * 64) m)
      (ones-AllBelow 64 (w * 64) m (suc w * 64) (omega arith)) (word_ones-Ascends n (suc w) words)

pub set_bits-Ascends : (mask : List ℕ) (bins : ℕ) → AreWords mask → Ascends 0 (set_bits mask bins)
set_bits-Ascends mask bins words =
    rw (set_bits-ones mask bins words) (word_ones-Ascends (mask_words bins) 0 mask)
