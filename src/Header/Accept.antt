-- ===== src/Header/Accept.antt =====
-- What a header that `deserializeHeader` returns is known to satisfy, and headers made by
-- `makeHeader`.
use air_tree.Common.{
  ℕ, ◌-◌, ◌≤◌, ◌≡◌, ◌∙◌, refl, sym, ap, arith, List, Bool, true, false, not, ◌&&◌, ltb, ◌==◌,
  if◌then◌else◌, length,
}
use air_tree.Config.{lookup_config}
use air_tree.Header.Bytes.{
  HeaderError, unknown_config, crc_mismatch, invalid_magic, unsupported_version,
  header_length_too_small, declared_length_too_large, buffer_too_small, Result, ok, err, ◌>>=◌, at,
  read_le16, read_le32, read_le64,
}
use air_tree.Header.Crc.{compute_crc32}
use air_tree.Header.{
  AirTreeHeader, header_size, found, populate, check_config, check_crc, check_length, check_version,
  check_magic, deserialize_header,
}

module _ {ℓ} {A : Type ℓ} where
  pub bind_ok {κ} :
      {B : Type κ} (r : Result B) (f : B → Result A) (a : A)
      → (r >>= f) ≡ ok a
      → (b : B) × (r ≡ ok b) × (f b ≡ ok a)
  bind_ok (ok b) f a e = (b, refl, e)
  bind_ok (err x) f a e = cc

  check_ok :
      (b : Bool) (x : HeaderError) (r : Result A) (a : A)
      → (if b then err x else r) ≡ ok a
      → (b ≡ false) × (r ≡ ok a)
  check_ok true x r a e = cc
  check_ok false x r a e = (refl, e)

not-eq-false : (b : Bool) → not b ≡ false → b ≡ true
not-eq-false true e = refl
not-eq-false false e = cc

same_fields : {g h : AirTreeHeader} → ◌≡◌ {A = Result AirTreeHeader} (ok g) (ok h) → g ≡ h
same_fields e = cc

-- The stored checksum is the one of the bytes before it.
abbrev pub HasChecksum : List ℕ → ℕ → Type 0
HasChecksum buffer n = (crc : ℕ) × (read_le32 buffer n ≡ ok crc) × (compute_crc32 buffer n ≡ ok crc)

module _ (buffer : List ℕ) (h : AirTreeHeader) where
  populate_ok :
      (version header_length wire : ℕ)
      → populate version header_length wire buffer ≡ ok h
      → (h.version ≡ version) × (h.header_length ≡ header_length) × (h.config ≡ wire)
  unfolding populate
  populate_ok version header_length wire e0 =
      let (d0, _, e1) = bind_ok (at buffer 9) _ h e0 in
      let (d1, _, e2) = bind_ok (at buffer 10) _ h e1 in
      let (d2, _, e3) = bind_ok (at buffer 11) _ h e2 in
      let (d3, _, e4) = bind_ok (at buffer 12) _ h e3 in
      let (payload_length, _, e5) = bind_ok (read_le64 buffer 13) _ h e4 in
      let (trie_count, _, e6) = bind_ok (read_le32 buffer 21) _ h e5 in
      let (pos_inf, _, e7) = bind_ok (read_le32 buffer 25) _ h e6 in
      let (neg_inf, _, e8) = bind_ok (read_le32 buffer 29) _ h e7 in
      let (pos_zero, _, e9) = bind_ok (read_le32 buffer 33) _ h e8 in
      let (neg_zero, _, e10) = bind_ok (read_le32 buffer 37) _ h e9 in
      let (nan, _, e11) = bind_ok (read_le32 buffer 41) _ h e10 in
      let same = same_fields e11 in
      (
        ap (λ (g : AirTreeHeader). g.version) (sym same),
        ap (λ (g : AirTreeHeader). g.header_length) (sym same),
        ap (λ (g : AirTreeHeader). g.config) (sym same),
      )

-- An accepted header has a known version and configuration, and lies with its declared length inside
-- the buffer, and the last four bytes of this length are the checksum of the bytes before them.
pub deserialize_header-accepts :
    (buffer : List ℕ) (h : AirTreeHeader)
    → deserialize_header buffer ≡ ok h
    → (h.version ≤ 1)
      × (header_size ≤ h.header_length)
      × (h.header_length ≤ length buffer)
      × (found (lookup_config h.config) ≡ true)
      × HasChecksum buffer (h.header_length - 4)
unfolding deserialize_header check_magic check_version check_length check_crc check_config
deserialize_header-accepts buffer h e0 =
    let (long, e1) = check_ok (ltb (length buffer) header_size) buffer_too_small _ h e0 in
    let (m0, _, e2) = bind_ok (at buffer 0) _ h e1 in
    let (m1, _, e3) = bind_ok (at buffer 1) _ h e2 in
    let (m2, _, e4) = bind_ok (at buffer 2) _ h e3 in
    let (m3, _, e5) = bind_ok (at buffer 3) _ h e4 in
    let (magic, e6) =
      check_ok (not (m0 == 0x41 && m1 == 0x49 && m2 == 0x52 && m3 == 0x54)) invalid_magic _ h e5 in
    let (version, _, e7) = bind_ok (read_le16 buffer 4) _ h e6 in
    let (supported, e8) = check_ok (ltb 1 version) unsupported_version _ h e7 in
    let (header_length, _, e9) = bind_ok (read_le16 buffer 6) _ h e8 in
    let (enough, e10) = check_ok (ltb header_length header_size) header_length_too_small _ h e9 in
    let (inside, e11) =
      check_ok (ltb (length buffer) header_length) declared_length_too_large _ h e10 in
    let (stored, read, e12) = bind_ok (read_le32 buffer (header_length - 4)) _ h e11 in
    let (computed, crc, e13) = bind_ok (compute_crc32 buffer (header_length - 4)) _ h e12 in
    let (equal, e14) = check_ok (not (stored == computed)) crc_mismatch _ h e13 in
    let (wire, _, e15) = bind_ok (at buffer 8) _ h e14 in
    let (known, e16) = check_ok (not (found (lookup_config wire))) unknown_config _ h e15 in
    let (v, l, w) = populate_ok buffer h version header_length wire e16 in
    let same : computed ≡ stored = ground arith in
    (
      rw v (ground arith),
      rw l (ground arith),
      rw l (ground arith),
      rw w (not-eq-false _ known),
      rw l (stored, read, crc ∙ ap ok same),
    )
