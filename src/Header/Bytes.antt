-- ===== src/Header/Bytes.antt =====
-- Reading, writing and patching little-endian numbers in a buffer.
use air_tree.Common.{ℕ, zero, suc, ◌+◌, ◌*◌, bit_and, bit_or, List, [], ◌∷◌, ◌++◌, shl, shr}

pub data HeaderError : Type 0 where
  buffer_too_small invalid_magic unsupported_version header_length_too_small : HeaderError
  declared_length_too_large crc_mismatch unknown_config out_of_bounds : HeaderError

pub data Result {ℓ} (A : Type ℓ) : Type ℓ where
  ok : A → Result A
  err : HeaderError → Result A

infixl 5 ◌>>=◌
abbrev pub ◌>>=◌ {ℓ κ} : {A : Type ℓ} {B : Type κ} → Result A → (A → Result B) → Result B
ok a >>= f = f a
err e >>= f = err e

-- `buffer[i]`, read and written.
unfoldable pub at : List ℕ → ℕ → Result ℕ
at [] i = err out_of_bounds
at (b ∷ bytes) zero = ok b
at (b ∷ bytes) (suc i) = at bytes i

unfoldable pub set_at : List ℕ → ℕ → ℕ → Result (List ℕ)
set_at [] i v = err out_of_bounds
set_at (b ∷ bytes) zero v = ok (v ∷ bytes)
set_at (b ∷ bytes) (suc i) v = do rest ← set_at bytes i v; ok (b ∷ rest)

-- Byte `i` of `v`.
abbrev pub byte_of : ℕ → ℕ → ℕ
byte_of v i = bit_and (shr v (i * 8)) 0xFF

unfoldable pub write_le16 : List ℕ → ℕ → List ℕ
write_le16 buf v = buf ++ (byte_of v 0 ∷ byte_of v 1 ∷ [])

unfoldable pub write_le32 : List ℕ → ℕ → List ℕ
write_le32 buf v = buf ++ (byte_of v 0 ∷ byte_of v 1 ∷ byte_of v 2 ∷ byte_of v 3 ∷ [])

-- The loops of writeLE64, readLE64 and patchLE64, with `n` rounds left and `i` done.
unfoldable pub write_loop : ℕ → ℕ → List ℕ → ℕ → List ℕ
write_loop zero i buf v = buf
write_loop (suc n) i buf v = write_loop n (suc i) (buf ++ (byte_of v i ∷ [])) v

unfoldable pub write_le64 : List ℕ → ℕ → List ℕ
unfolding write_loop
write_le64 buf v = write_loop 8 0 buf v

unfoldable pub read_le16 : List ℕ → ℕ → Result ℕ
unfolding at
read_le16 buf p = do b0 ← at buf p; b1 ← at buf (p + 1); ok (bit_or b0 (shl 32 b1 8))

unfoldable pub read_le32 : List ℕ → ℕ → Result ℕ
unfolding at
read_le32 buf p = do
  b0 ← at buf p
  b1 ← at buf (p + 1)
  b2 ← at buf (p + 2)
  b3 ← at buf (p + 3)
  ok (bit_or (bit_or (bit_or b0 (shl 32 b1 8)) (shl 32 b2 16)) (shl 32 b3 24))

unfoldable pub read_loop : ℕ → ℕ → List ℕ → ℕ → ℕ → Result ℕ
unfolding at
read_loop zero i buf p v = ok v
read_loop (suc n) i buf p v = do
  b ← at buf (p + i)
  read_loop n (suc i) buf p (bit_or v (shl 64 b (i * 8)))

unfoldable pub read_le64 : List ℕ → ℕ → Result ℕ
unfolding read_loop
read_le64 buf p = read_loop 8 0 buf p 0

unfoldable pub patch_loop : ℕ → ℕ → List ℕ → ℕ → ℕ → Result (List ℕ)
unfolding set_at
patch_loop zero i buf offset v = ok buf
patch_loop (suc n) i buf offset v = do
  buf' ← set_at buf (offset + i) (byte_of v i)
  patch_loop n (suc i) buf' offset v

unfoldable pub patch_le64 : List ℕ → ℕ → ℕ → Result (List ℕ)
unfolding patch_loop
patch_le64 buf offset v = patch_loop 8 0 buf offset v

unfoldable pub patch_le32 : List ℕ → ℕ → ℕ → Result (List ℕ)
unfolding set_at
patch_le32 buf offset v = do
  b0 ← set_at buf (offset + 0) (byte_of v 0)
  b1 ← set_at b0 (offset + 1) (byte_of v 1)
  b2 ← set_at b1 (offset + 2) (byte_of v 2)
  set_at b2 (offset + 3) (byte_of v 3)
