-- ===== src/Merge/Placed.antt =====
-- Bytes that stand at an offset of a buffer.
use mathlib.Core.List.{append_assoc}
use air_tree.Common.{
  ℕ, ◌+◌, ◌-◌, ◌≡◌, ◌∙◌, refl, sym, ap, arith, List, [], ◌∷◌, ◌++◌, AreBytes, AreBytes-append,
  length, length-append, some,
}
use air_tree.SetBits.{set_bits}
use air_tree.SetBits.Member.{put_all}
use air_tree.Node.{read_node_into, skip_node}
use air_tree.Node.RoundTrip.{IsBytes}
use air_tree.Merge.{drop, take}

pub record Placed (buffer : List ℕ) (offset : ℕ) (bytes : List ℕ) : Type 0 where
  pub front : List ℕ
  pub rest : List ℕ
  pub place : buffer ≡ (front ++ bytes) ++ rest
  pub start : offset ≡ length front
  pub front_bytes : AreBytes front
  pub own_bytes : AreBytes bytes
  pub rest_bytes : AreBytes rest

AreBytes-split : (xs ys : List ℕ) → AreBytes (xs ++ ys) → AreBytes xs × AreBytes ys
AreBytes-split [] ys h = (tt, h)
AreBytes-split (x ∷ xs) ys h = let (left, right) = AreBytes-split xs ys h.1 in ((h.0, left), right)

-- The first part, and what follows it.
pub first-Placed :
    (buffer : List ℕ) (offset : ℕ) (a b : List ℕ)
    → Placed buffer offset (a ++ b)
    → Placed buffer offset a
first-Placed buffer offset a b p =
    let (left, right) = AreBytes-split a b p.own_bytes in
    record {
      front = p.front;
      rest = b ++ p.rest;
      place =
          p.place
          ∙ ap (λ (t : List ℕ). t ++ p.rest) (sym (append_assoc p.front a b))
          ∙ append_assoc (p.front ++ a) b p.rest;
      start = p.start;
      front_bytes = p.front_bytes;
      own_bytes = left;
      rest_bytes = AreBytes-append b p.rest right p.rest_bytes;
    }

pub later-Placed :
    (buffer : List ℕ) (offset : ℕ) (a b : List ℕ)
    → Placed buffer offset (a ++ b)
    → Placed buffer (offset + length a) b
later-Placed buffer offset a b p =
    let (left, right) = AreBytes-split a b p.own_bytes in
    record {
      front = p.front ++ a;
      rest = p.rest;
      place = p.place ∙ ap (λ (t : List ℕ). t ++ p.rest) (sym (append_assoc p.front a b));
      start = omega (arith, p.start, length-append p.front a);
      front_bytes = AreBytes-append p.front a p.front_bytes left;
      own_bytes = right;
      rest_bytes = p.rest_bytes;
    }

module _ (buffer : List ℕ) (offset bins : ℕ) (mask counts tail : List ℕ)
    (b : IsBytes bins mask counts tail) (p : Placed buffer offset tail) where
  behind : length (p.front ++ tail) ≡ offset + length tail
  behind = length-append p.front tail ∙ omega (arith, p.start)

  pub placed_read :
      (counted : List ℕ)
      → read_node_into buffer offset bins counted
        ≡ some (mask, put_all 0 (set_bits mask bins) counts counted, offset + length tail)
  placed_read counted =
      rw (← behind, p.start, p.place) (b.read p.front p.rest counted p.front_bytes p.rest_bytes)

  pub placed_skip : skip_node buffer offset bins ≡ some (mask, offset + length tail)
  placed_skip =
      rw (← behind, p.start, p.place) (b.skipped p.front p.rest p.front_bytes p.rest_bytes)

drop-append : (xs ys : List ℕ) → drop (length xs) (xs ++ ys) ≡ ys
drop-append [] ys = refl
drop-append (x ∷ xs) ys = drop-append xs ys

take-append : (xs ys : List ℕ) → take (length xs) (xs ++ ys) ≡ xs
take-append [] ys = refl
take-append (x ∷ xs) ys = ap (λ (t : List ℕ). x ∷ t) (take-append xs ys)

-- The slice of a buffer at which bytes stand.
pub take-drop :
    (buffer : List ℕ) (offset : ℕ) (bytes : List ℕ)
    → Placed buffer offset bytes
    → take (offset + length bytes - offset) (drop offset buffer) ≡ bytes
take-drop buffer offset bytes p =
    let size : offset + length bytes - offset ≡ length bytes = omega arith in
    let cut : drop offset buffer ≡ bytes ++ p.rest =
      rw (p.start, p.place, append_assoc p.front bytes p.rest)
        (drop-append p.front (bytes ++ p.rest)) in
    rw (size, cut) (take-append bytes p.rest)
