-- ===== src/Header/CrcLaws.antt =====
-- The CRC-32 is a number of 32 bits, and depends on the bytes that it is taken over.
use air_tree.Common.{
  ℕ, zero, suc, ◌^◌, ◌≤◌, ◌<◌, ◌≡◌, refl, arith, bit_and, bit_xor, bit_xor-lt, List, [], ◌∷◌, ◌++◌,
  not, ◌==◌, shr, ◌-◌, length, Bool-cases, inl, inr, bit_and_low8,
}
use air_tree.Header.Bytes.{ok}
use air_tree.Header.Crc.{crc_entry, crc_table, crc_loop, compute_crc32}

crc_entry-lt : (n c : ℕ) → c < 2 ^ 32 → crc_entry n c < 2 ^ 32
unfolding crc_entry
crc_entry-lt zero c h = h
crc_entry-lt (suc n) c h = elim (Bool-cases (not (bit_and c 1 == 0))) [
  | inl odd ↦
      rw odd (crc_entry-lt n _ (bit_xor-lt 32 0xEDB88320 (shr c 1) (omega arith) (omega arith)))
  | inr even ↦ rw even (crc_entry-lt n (shr c 1) (omega arith))
]

crc_loop-ok :
    (bytes : List ℕ) (n crc : ℕ)
    → n ≤ length bytes
    → crc < 2 ^ 32
    → (c : ℕ) × (c < 2 ^ 32) × (crc_loop bytes n crc ≡ ok c)
unfolding crc_loop crc_table
crc_loop-ok bytes zero crc h small = (crc, small, refl)
crc_loop-ok [] (suc n) crc h small = absurd (omega arith)
crc_loop-ok (b ∷ bytes) (suc n) crc h small = crc_loop-ok bytes n _ (omega arith) (
    bit_xor-lt 32 _ (shr crc 8) (crc_entry-lt 8 _ (omega (arith, bit_and_low8 (bit_xor crc b))))
      (omega arith))

pub compute_crc32-ok :
    (bytes : List ℕ) (n : ℕ)
    → n ≤ length bytes
    → (c : ℕ) × (c < 2 ^ 32) × (compute_crc32 bytes n ≡ ok c)
unfolding compute_crc32
compute_crc32-ok bytes n h =
    let done = crc_loop-ok bytes n (2 ^ 32 - 1) h (omega arith) in
    (
      bit_xor done.0 (2 ^ 32 - 1),
      bit_xor-lt 32 done.0 (2 ^ 32 - 1) done.1 (omega arith),
      rw done.2 refl,
    )

crc_loop-append :
    (xs ys zs : List ℕ) (n crc : ℕ)
    → n ≤ length xs
    → crc_loop (xs ++ ys) n crc ≡ crc_loop (xs ++ zs) n crc
unfolding crc_loop
crc_loop-append xs ys zs zero crc h = refl
crc_loop-append [] ys zs (suc n) crc h = absurd (omega arith)
crc_loop-append (x ∷ xs) ys zs (suc n) crc h = crc_loop-append xs ys zs n _ (omega arith)

pub compute_crc32-append :
    (xs ys zs : List ℕ) (n : ℕ)
    → n ≤ length xs
    → compute_crc32 (xs ++ ys) n ≡ compute_crc32 (xs ++ zs) n
unfolding compute_crc32
compute_crc32-append xs ys zs n h = rw (crc_loop-append xs ys zs n (2 ^ 32 - 1) h) refl
