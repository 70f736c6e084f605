-- ===== src/Chunks.antt =====
-- airtree-core/src/common/BitCodec.cpp: the codes of the dimensions are put together into one
-- index, all magnitude chunks above all precision chunks, and taken apart again. An input out of
-- range is logged by the code and gives 0; the log line is not modelled.
pub mod Eight
pub mod Split
pub mod Ten
mod Tests
use air_tree.Common.{ℕ, ◌≡◌, arith, Bool, false, ltb, ◌||◌, ◌≤◌}

-- ChunkTypes.hpp: ChunkPair, ChunkTriple and ChunkQuad.
pub record ChunkPair : Type 0 where
  pub x : ℕ
  pub y : ℕ

pub record ChunkTriple : Type 0 where
  pub x : ℕ
  pub y : ℕ
  pub z : ℕ

pub record ChunkQuad : Type 0 where
  pub x : ℕ
  pub y : ℕ
  pub z : ℕ
  pub w : ℕ

-- The range guards of the combining functions, each for the limit `m`.
abbrev pub exceeds2 : ℕ → ℕ → ℕ → Bool
exceeds2 m x y = ltb m x || ltb m y

abbrev pub exceeds3 : ℕ → ℕ → ℕ → ℕ → Bool
exceeds3 m x y z = ltb m x || ltb m y || ltb m z

abbrev pub exceeds4 : ℕ → ℕ → ℕ → ℕ → ℕ → Bool
exceeds4 m x y z w = ltb m x || ltb m y || ltb m z || ltb m w

module _ (m : ℕ) {x y : ℕ} (hx : x ≤ m) (hy : y ≤ m) where
  pub exceeds2-false : exceeds2 m x y ≡ false
  exceeds2-false = ground arith

  module _ {z : ℕ} (hz : z ≤ m) where
    pub exceeds3-false : exceeds3 m x y z ≡ false
    exceeds3-false = ground arith

    pub exceeds4-false : {w : ℕ} → w ≤ m → exceeds4 m x y z w ≡ false
    exceeds4-false hw = ground arith
