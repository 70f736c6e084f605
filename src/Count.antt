-- ===== src/Count.antt =====
-- airtree-core/src/serdes/Count.cpp: the width of the counts of a node on the wire. A `while` loop runs
-- on fuel; a `uint32_t` is 0 after 32 halvings, so that 33 rounds are enough.
pub mod Width
pub mod Codec
pub mod Number
pub mod Writer
pub mod Reader
pub mod RoundTrip
mod Tests
use air_tree.Common.{ℕ, zero, suc, ◌+◌, ◌/◌, ◌^◌, Option, none, some, ◌==◌, if◌then◌else◌, shr}

-- `while (maxNumber > 0)`, with at most `fuel` rounds; `none` would be a loop that goes on.
unfoldable pub width_loop : ℕ → ℕ → ℕ → Option ℕ
width_loop zero max_number bits = none
width_loop (suc fuel) max_number bits =
    let rest = width_loop fuel (shr max_number 1) (bits + 1) in
    if max_number == 0 then some bits else rest

unfoldable pub minimum_bits : ℕ → Option ℕ
minimum_bits max_number = if max_number == 0 then some 1 else width_loop 33 max_number 0
