-- ===== src/Common/Bytes.antt =====
-- Lists of bytes.
use Prim.Native.Nat.{ℕ, zero, suc, ◌<◌}
use mathlib.Core.List.{List, [], ◌∷◌, ◌++◌}
use native.Mathlib.Omega.{arith}
use air_tree.Common.Lists.{at_or}

abbrev pub AreBytes : List ℕ → Type 0
AreBytes [] = Unit {0}
AreBytes (b ∷ bytes) = (b < 256) × AreBytes bytes

pub at_or-byte : (bytes : List ℕ) (i : ℕ) → AreBytes bytes → at_or 0 bytes i < 256
at_or-byte [] i h = omega arith
at_or-byte (b ∷ bytes) zero h = h.0
at_or-byte (b ∷ bytes) (suc i) h = at_or-byte bytes i h.1

pub AreBytes-append : (xs ys : List ℕ) → AreBytes xs → AreBytes ys → AreBytes (xs ++ ys)
AreBytes-append [] ys h h' = h'
AreBytes-append (x ∷ xs) ys h h' = (h.0, AreBytes-append xs ys h.1 h')
