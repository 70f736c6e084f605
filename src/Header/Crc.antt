-- ===== src/Header/Crc.antt =====
-- The CRC-32 of the header.
use air_tree.Common.{
  ℕ, zero, suc, ◌-◌, ◌^◌, bit_and, bit_xor, List, [], ◌∷◌, ◌==◌, if◌then◌else◌, shr, not,
}
use air_tree.Header.Bytes.{Result, ok, err, out_of_bounds, ◌>>=◌}

-- An entry of `kCrcTable`, by the loop that fills it, with `n` rounds left.
unfoldable pub crc_entry : ℕ → ℕ → ℕ
crc_entry zero c = c
crc_entry (suc n) c =
    crc_entry n (if not (bit_and c 1 == 0) then bit_xor 0xEDB88320 (shr c 1) else shr c 1)

unfoldable pub crc_table : ℕ → ℕ
unfolding crc_entry
crc_table i = crc_entry 8 i

-- The loop of `computeCrc32` over `length` bytes.
unfoldable pub crc_loop : List ℕ → ℕ → ℕ → Result ℕ
unfolding crc_table
crc_loop bytes zero crc = ok crc
crc_loop [] (suc length) crc = err out_of_bounds
crc_loop (b ∷ bytes) (suc length) crc =
    crc_loop bytes length (bit_xor (crc_table (bit_and (bit_xor crc b) 0xFF)) (shr crc 8))

unfoldable pub compute_crc32 : List ℕ → ℕ → Result ℕ
unfolding crc_loop
compute_crc32 bytes length = do
  crc ← crc_loop bytes length (2 ^ 32 - 1)
  ok (bit_xor crc (2 ^ 32 - 1))
