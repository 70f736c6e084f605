-- ===== src/Header/Finalize.antt =====
-- When `finalizeHeader` stays inside its buffer.
use air_tree.Common.{
  ℕ, zero, suc, ◌+◌, ◌-◌, ◌^◌, ◌≤◌, ◌<◌, ◌≡◌, ◌∙◌, refl, ap, arith, List, [], ◌∷◌, false, ltb, ltb,
  le→not_ltb, length, wrap_sub,
}
use air_tree.Header.Bytes.{
  Result, ok, err, out_of_bounds, ◌>>=◌, set_at, byte_of, read_le16, patch_loop, patch_le64,
  patch_le32,
}
use air_tree.Header.Crc.{crc_loop, compute_crc32}
use air_tree.Header.CrcLaws.{compute_crc32-ok}
use air_tree.Header.{header_size, finalize_header}

-- The step succeeds and keeps the length.
abbrev pub KeepsLength : List ℕ → Result (List ℕ) → Type 0
KeepsLength buffer r = (result : List ℕ) × (r ≡ ok result) × (length result ≡ length buffer)

set_at-KeepsLength :
    (buffer : List ℕ) (i v : ℕ) → i < length buffer → KeepsLength buffer (set_at buffer i v)
unfolding set_at
set_at-KeepsLength [] i v h = absurd (omega arith)
set_at-KeepsLength (b ∷ buffer) zero v h = (v ∷ buffer, refl, refl)
set_at-KeepsLength (b ∷ buffer) (suc i) v h =
    let (rest, e, l) = set_at-KeepsLength buffer i v (omega arith) in
    (b ∷ rest, rw e refl, ap suc l)

bind-KeepsLength :
    (buffer : List ℕ) (r : Result (List ℕ)) (f : List ℕ → Result (List ℕ))
    → KeepsLength buffer r
    → ((b : List ℕ) → length b ≡ length buffer → KeepsLength b (f b))
    → KeepsLength buffer (r >>= f)
bind-KeepsLength buffer r f (b, e, l) next =
    let (result, e', l') = next b l in (result, rw e e', l' ∙ l)

patch_loop-KeepsLength :
    (n i : ℕ) (buffer : List ℕ) (offset v : ℕ)
    → offset + i + n ≤ length buffer
    → KeepsLength buffer (patch_loop n i buffer offset v)
unfolding patch_loop
patch_loop-KeepsLength zero i buffer offset v h = (buffer, refl, refl)
patch_loop-KeepsLength (suc n) i buffer offset v h =
    bind-KeepsLength buffer (set_at buffer (offset + i) (byte_of v i)) _
      (set_at-KeepsLength buffer (offset + i) _ (omega arith))
      (λ b l. patch_loop-KeepsLength n (suc i) b offset v (omega arith))

patch_le32-KeepsLength :
    (buffer : List ℕ) (offset v : ℕ)
    → offset + 4 ≤ length buffer
    → KeepsLength buffer (patch_le32 buffer offset v)
unfolding patch_le32
patch_le32-KeepsLength buffer offset v h =
    bind-KeepsLength buffer (set_at buffer (offset + 0) (byte_of v 0)) _
      (set_at-KeepsLength buffer (offset + 0) _ (omega arith))
      λ b0 l0.
        bind-KeepsLength b0 (set_at b0 (offset + 1) (byte_of v 1)) _
          (set_at-KeepsLength b0 (offset + 1) _ (omega arith))
          λ b1 l1.
            bind-KeepsLength b1 (set_at b1 (offset + 2) (byte_of v 2)) _
              (set_at-KeepsLength b1 (offset + 2) _ (omega arith))
              λ b2 l2. set_at-KeepsLength b2 (offset + 3) _ (omega arith)

crc_loop-out_of_bounds :
    (bytes : List ℕ) (n crc : ℕ) → length bytes < n → crc_loop bytes n crc ≡ err out_of_bounds
unfolding crc_loop
crc_loop-out_of_bounds bytes zero crc h = absurd (omega arith)
crc_loop-out_of_bounds [] (suc n) crc h = refl
crc_loop-out_of_bounds (b ∷ bytes) (suc n) crc h = crc_loop-out_of_bounds bytes n _ (omega arith)

module _ (buffer : List ℕ) (n header_length : ℕ) (long : header_size ≤ length buffer)
    (declared : read_le16 buffer 6 ≡ ok header_length) where
  size : ltb (length buffer) header_size ≡ false
  size = le→not_ltb header_size (length buffer) long

  patched : KeepsLength buffer (patch_le64 buffer 13 n)
  unfolding patch_le64
  patched = patch_loop-KeepsLength 8 0 buffer 13 n (omega arith)

  finalize_steps :
      (b result : List ℕ) (crc : ℕ)
      → patch_le64 buffer 13 n ≡ ok b
      → compute_crc32 b (wrap_sub 64 header_length 4) ≡ ok crc
      → patch_le32 b (wrap_sub 64 header_length 4) crc ≡ ok result
      → finalize_header buffer n ≡ ok result
  unfolding finalize_header
  finalize_steps b result crc e e' e'' = rw (size, declared, e, e', e'') refl

  -- With a declared length from 4 up to the buffer's, a buffer that holds a header is finalized, and
  -- keeps its length.
  pub finalize_header-KeepsLength :
      4 ≤ header_length
      → header_length ≤ length buffer
      → header_length < 2 ^ 16
      → KeepsLength buffer (finalize_header buffer n)
  finalize_header-KeepsLength low high narrow =
      let (b, e, l) = patched in
      let offset : wrap_sub 64 header_length 4 ≡ header_length - 4 = omega arith in
      let (crc, _, e') = compute_crc32-ok b (wrap_sub 64 header_length 4) (omega arith) in
      let (result, e'', l') =
        patch_le32-KeepsLength b (wrap_sub 64 header_length 4) crc (omega arith) in
      (result, finalize_steps b result crc e e' e'', l' ∙ l)

  -- With a declared length below 4 the checksum is taken over bytes outside the buffer.
  pub finalize_header-out_of_bounds :
      header_length < 4 → length buffer < 2 ^ 64 - 4 → finalize_header buffer n ≡ err out_of_bounds
  unfolding finalize_header compute_crc32
  finalize_header-out_of_bounds low small =
      let (b, e, l) = patched in
      rw
        (
          size,
          declared,
          e,
          crc_loop-out_of_bounds b (wrap_sub 64 header_length 4) (2 ^ 32 - 1) (omega arith),
        )
        refl
