-- ===== src/Common/Lists.antt =====
-- Lists measured and indexed by native numbers, under the library's names.
use Prim.Native.Nat.{ℕ, zero, suc, ◌+◌, ◌<◌, ◌≤◌}
use mathlib.Core.Path.{◌≡◌, refl, ap}
use air_tree.Common.Tests.{◌==◌, if◌then◌else◌}
use mathlib.Core.List.{List, [], ◌∷◌, ◌++◌}
use mathlib.Core.Option.{Option, none, some}
use native.Mathlib.Omega.{arith}

module _ {ℓ} {A : Type ℓ} where
  abbrev pub length : List A → ℕ
  length [] = 0
  length (x ∷ xs) = suc (length xs)

  abbrev pub get_elem? : List A → ℕ → Option A
  get_elem? [] i = none
  get_elem? (x ∷ xs) zero = some x
  get_elem? (x ∷ xs) (suc i) = get_elem? xs i

  pub length-append : (xs ys : List A) → length (xs ++ ys) ≡ length xs + length ys
  length-append [] ys = omega arith
  length-append (x ∷ xs) ys = omega (arith, length-append xs ys)

  -- The element at an index, or `d` out of range.
  abbrev pub at_or : A → List A → ℕ → A
  at_or d [] i = d
  at_or d (x ∷ xs) zero = x
  at_or d (x ∷ xs) (suc i) = at_or d xs i

  -- `xs[i] = f(xs[i])`; out of range nothing changes.
  abbrev pub modify : ℕ → (A → A) → List A → List A
  modify i f [] = []
  modify zero f (x ∷ xs) = f x ∷ xs
  modify (suc i) f (x ∷ xs) = x ∷ modify i f xs

  abbrev pub replicate : ℕ → A → List A
  replicate zero x = []
  replicate (suc n) x = x ∷ replicate n x

  pub length-modify : (i : ℕ) (f : A → A) (xs : List A) → length (modify i f xs) ≡ length xs
  length-modify i f [] = refl
  length-modify zero f (x ∷ xs) = refl
  length-modify (suc i) f (x ∷ xs) = ap suc (length-modify i f xs)

  pub at_or-modify :
      (d : A) (i : ℕ) (f : A → A) (xs : List A) (j : ℕ)
      → i < length xs
      → at_or d (modify i f xs) j ≡ (if i == j then f (at_or d xs j) else at_or d xs j)
  at_or-modify d i f [] j h = absurd (omega arith)
  at_or-modify d zero f (x ∷ xs) zero h = refl
  at_or-modify d zero f (x ∷ xs) (suc j) h = ground arith
  at_or-modify d (suc i) f (x ∷ xs) zero h = ground arith
  at_or-modify d (suc i) f (x ∷ xs) (suc j) h =
      ground (arith, at_or-modify d i f xs j (omega arith))

  pub at_or-beyond : (d : A) (xs : List A) (i : ℕ) → length xs ≤ i → at_or d xs i ≡ d
  at_or-beyond d [] i h = refl
  at_or-beyond d (x ∷ xs) zero h = absurd (omega arith)
  at_or-beyond d (x ∷ xs) (suc i) h = at_or-beyond d xs i (omega arith)

  pub length-replicate : (n : ℕ) (x : A) → length (replicate n x) ≡ n
  length-replicate zero x = refl
  length-replicate (suc n) x = ap suc (length-replicate n x)

  pub at_or-replicate : (d : A) (n i : ℕ) → at_or d (replicate n d) i ≡ d
  at_or-replicate d zero i = refl
  at_or-replicate d (suc n) zero = refl
  at_or-replicate d (suc n) (suc i) = at_or-replicate d n i

  -- Lists with the same elements in the same places are the same.
  pub list_ext :
      (d : A) (xs ys : List A)
      → length xs ≡ length ys
      → ((i : ℕ) → i < length xs → at_or d xs i ≡ at_or d ys i)
      → xs ≡ ys
  list_ext d [] [] same each = refl
  list_ext d [] (y ∷ ys) same each = absurd (omega arith)
  list_ext d (x ∷ xs) [] same each = absurd (omega arith)
  list_ext d (x ∷ xs) (y ∷ ys) same each =
      let tail : xs ≡ ys = list_ext d xs ys (omega arith) (λ i h. each (suc i) (omega arith)) in
      let head : x ≡ y = each 0 (omega arith) in rw (head, tail) refl
