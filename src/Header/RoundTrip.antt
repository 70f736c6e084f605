-- ===== src/Header/RoundTrip.antt =====
-- A header that was serialized and finalized is read back.
use air_tree.Common.{
  AreBytes, AreBytes-append, ℕ, ◌^◌, ◌≤◌, ◌<◌, ◌≡◌, ◌∙◌, refl, arith, List, [], ◌∷◌, ◌++◌, true,
  false, ltb, ◌==◌, length, ==_iff, le→not_ltb,
}
use air_tree.Config.{lookup_config}
use air_tree.Header.Bytes.{
  ok, ◌>>=◌, at, set_at, byte_of, read_le16, read_le32, read_loop, read_le64, write_le16,
  write_le32, write_loop, write_le64, patch_loop, patch_le64, patch_le32,
}
use air_tree.Header.Crc.{compute_crc32}
use air_tree.Header.CrcLaws.{compute_crc32-ok, compute_crc32-append}
use air_tree.Header.Values.{byte_of-lt, le16, le32, le64, le64_loop}
use air_tree.Header.{
  AirTreeHeader, header_size, found, serialize_header, populate, check_config, check_crc,
  check_length, check_version, check_magic, deserialize_header, finalize_header,
}

-- A header of this version: every field fits, and the configuration is known.
pub record IsWire (h : AirTreeHeader) : Type 0 where
  pub version : h.version ≤ 1
  pub header_length : h.header_length ≡ header_size
  pub known : found (lookup_config h.config) ≡ true
  pub trie_count : h.trie_count < 2 ^ 32
  pub pos_inf_count : h.pos_inf_count < 2 ^ 32
  pub neg_inf_count : h.neg_inf_count < 2 ^ 32
  pub pos_zero_count : h.pos_zero_count < 2 ^ 32
  pub neg_zero_count : h.neg_zero_count < 2 ^ 32
  pub nan_count : h.nan_count < 2 ^ 32

abbrev bytes32 : ℕ → List ℕ → List ℕ
bytes32 v rest = byte_of v 0 ∷ byte_of v 1 ∷ byte_of v 2 ∷ byte_of v 3 ∷ rest

-- The first 45 bytes of the header `h`, with the payload length `n`.
abbrev body : AirTreeHeader → ℕ → List ℕ
body h n =
    0x41
    ∷ 0x49
    ∷ 0x52
    ∷ 0x54
    ∷ byte_of h.version 0
    ∷ byte_of h.version 1
    ∷ 49
    ∷ 0
    ∷ h.config
    ∷ h.data_types.0
    ∷ h.data_types.1
    ∷ h.data_types.2
    ∷ h.data_types.3
    ∷ byte_of n 0
    ∷ byte_of n 1
    ∷ byte_of n 2
    ∷ byte_of n 3
    ∷ byte_of n 4
    ∷ byte_of n 5
    ∷ byte_of n 6
    ∷ byte_of n 7
    ∷ bytes32 h.trie_count (
        bytes32 h.pos_inf_count (
          bytes32 h.neg_inf_count
            (bytes32 h.pos_zero_count (bytes32 h.neg_zero_count (bytes32 h.nan_count [])))))

serialize_lem :
    (h : AirTreeHeader)
    → h.header_length ≡ header_size
    → serialize_header h [] ≡ body h h.payload_length ++ bytes32 0 []
unfolding serialize_header write_le16 write_le32 write_le64 write_loop
serialize_lem h e = rw e refl

module _ (h : AirTreeHeader) (n c : ℕ) (rest : List ℕ) where
  finalize_lem :
      (m : ℕ)
      → compute_crc32 (body h n ++ bytes32 0 rest) 45 ≡ ok c
      → finalize_header (body h m ++ bytes32 0 rest) n ≡ ok (body h n ++ bytes32 c rest)
  unfolding finalize_header read_le16 at patch_le64 patch_loop set_at patch_le32
  finalize_lem m e =
      let long : ltb (length (body h m ++ bytes32 0 rest)) header_size ≡ false =
        le→not_ltb header_size _ (omega arith) in
      rw (long, e) refl

  populate_lem :
      IsWire h
      → n < 2 ^ 64
      → populate h.version 49 h.config (body h n ++ bytes32 c rest)
        ≡ ok (record h { payload_length = n })
  unfolding populate at read_le32 read_le64 read_loop le64_loop
  populate_lem w hn =
      rw
        (
          le64 n hn,
          le32 _ w.trie_count,
          le32 _ w.pos_inf_count,
          le32 _ w.neg_inf_count,
          le32 _ w.pos_zero_count,
          le32 _ w.neg_zero_count,
          le32 _ w.nan_count,
          ← w.header_length,
        )
        refl

  read_back :
      IsWire h
      → n < 2 ^ 64
      → c < 2 ^ 32
      → compute_crc32 (body h n ++ bytes32 c rest) 45 ≡ ok c
      → deserialize_header (body h n ++ bytes32 c rest) ≡ ok (record h { payload_length = n })
  unfolding deserialize_header check_magic check_version check_length check_crc check_config
      read_le16 read_le32 at
  read_back w hn hc e =
      let size : ltb (length (body h n ++ bytes32 c rest)) header_size ≡ false =
        le→not_ltb header_size _ (omega arith) in
      let supported : ltb 1 h.version ≡ false = le→not_ltb h.version 1 w.version in
      let same : (c == c) ≡ true = (==_iff c c).1 refl in
      rw
        (
          size,
          le16 h.version (omega (arith, w.version)),
          supported,
          le32 c hc,
          e,
          same,
          w.known,
          populate_lem w hn,
        )
        refl

-- Serialize a header, append a payload and finalize it with the payload's length: deserializing the
-- result gives the header back with this length, whatever bytes follow.
pub deserialize-finalize_header :
    (h : AirTreeHeader) (n : ℕ) (payload : List ℕ)
    → IsWire h
    → n < 2 ^ 64
    → (finalize_header (serialize_header h [] ++ payload) n >>= deserialize_header)
      ≡ ok (record h { payload_length = n })
deserialize-finalize_header h n payload w hn =
    let crc = compute_crc32-ok (body h n ++ bytes32 0 payload) 45 (omega arith) in
    let kept : compute_crc32 (body h n ++ bytes32 crc.0 payload) 45 ≡ ok crc.0 =
      compute_crc32-append (body h n) (bytes32 crc.0 payload) (bytes32 0 payload) 45 (omega arith)
      ∙ crc.2 in
    rw
      (
        serialize_lem h w.header_length,
        finalize_lem h n crc.0 payload h.payload_length crc.2,
        read_back h n crc.0 payload w hn crc.1 kept,
      )
      refl

bytes32-AreBytes : (v : ℕ) (rest : List ℕ) → AreBytes rest → AreBytes (bytes32 v rest)
bytes32-AreBytes v rest after =
    (byte_of-lt v 0, (byte_of-lt v 1, (byte_of-lt v 2, (byte_of-lt v 3, after))))

-- The configuration and the data types are a byte each.
abbrev pub HasByteTypes : AirTreeHeader → Type 0
HasByteTypes h =
    AreBytes (h.config ∷ h.data_types.0 ∷ h.data_types.1 ∷ h.data_types.2 ∷ h.data_types.3 ∷ [])

body-AreBytes : (h : AirTreeHeader) (n c : ℕ) → HasByteTypes h → AreBytes (body h n ++ bytes32 c [])
body-AreBytes h n c types =
    let c0 : List ℕ = bytes32 c [] in
    let c1 : List ℕ = bytes32 h.nan_count c0 in
    let c2 : List ℕ = bytes32 h.neg_zero_count c1 in
    let c3 : List ℕ = bytes32 h.pos_zero_count c2 in
    let c4 : List ℕ = bytes32 h.neg_inf_count c3 in
    let c5 : List ℕ = bytes32 h.pos_inf_count c4 in
    let c6 : List ℕ = bytes32 h.trie_count c5 in
    let p1 : AreBytes c1 = bytes32-AreBytes h.nan_count c0 (bytes32-AreBytes c [] tt) in
    let p3 : AreBytes c3 =
      bytes32-AreBytes h.pos_zero_count c2 (bytes32-AreBytes h.neg_zero_count c1 p1) in
    let p5 : AreBytes c5 =
      bytes32-AreBytes h.pos_inf_count c4 (bytes32-AreBytes h.neg_inf_count c3 p3) in
    let p6 : AreBytes c6 = bytes32-AreBytes h.trie_count c5 p5 in
    let high : List ℕ = byte_of n 4 ∷ byte_of n 5 ∷ byte_of n 6 ∷ byte_of n 7 ∷ c6 in
    let p7 : AreBytes high =
      (byte_of-lt n 4, (byte_of-lt n 5, (byte_of-lt n 6, (byte_of-lt n 7, p6)))) in
    let front : List ℕ =
      h.config ∷ h.data_types.0 ∷ h.data_types.1 ∷ h.data_types.2 ∷ h.data_types.3 ∷ [] in
    let length_bytes : AreBytes (bytes32 n high) = bytes32-AreBytes n high p7 in
    let typed : AreBytes (front ++ bytes32 n high) =
      AreBytes-append front (bytes32 n high) types length_bytes in
    let magic : List ℕ =
      0x41 ∷ 0x49 ∷ 0x52 ∷ 0x54 ∷ byte_of h.version 0 ∷ byte_of h.version 1 ∷ 49 ∷ 0 ∷ [] in
    let marked : AreBytes magic = (
      omega arith,
      (
        omega arith,
        (
          omega arith,
          (
            omega arith,
            (byte_of-lt h.version 0, (byte_of-lt h.version 1, (omega arith, (omega arith, tt)))),
          ),
        ),
      ),
    ) in
    AreBytes-append magic (front ++ bytes32 n high) marked typed

-- A finalized buffer is the bytes of the header in front of the payload, which is left alone; they are as
-- many as those of the header that was written first.
pub finalize_header-front :
    (h : AirTreeHeader) (n : ℕ) (payload : List ℕ)
    → IsWire h
    → HasByteTypes h
    → n < 2 ^ 64
    → (front : List ℕ) × AreBytes front
      × (length front ≡ 49)
      × (length (serialize_header h []) ≡ 49)
      × AreBytes (serialize_header h [])
      × (finalize_header (serialize_header h [] ++ payload) n ≡ ok (front ++ payload))
      × (deserialize_header (front ++ payload) ≡ ok (record h { payload_length = n }))
finalize_header-front h n payload w types hn =
    let crc = compute_crc32-ok (body h n ++ bytes32 0 payload) 45 (omega arith) in
    let kept : compute_crc32 (body h n ++ bytes32 crc.0 payload) 45 ≡ ok crc.0 =
      compute_crc32-append (body h n) (bytes32 crc.0 payload) (bytes32 0 payload) 45 (omega arith)
      ∙ crc.2 in
    (
      body h n ++ bytes32 crc.0 [],
      body-AreBytes h n crc.0 types,
      refl,
      rw (serialize_lem h w.header_length) refl,
      rw (serialize_lem h w.header_length) (body-AreBytes h h.payload_length 0 types),
      rw (serialize_lem h w.header_length) (finalize_lem h n crc.0 payload h.payload_length crc.2),
      read_back h n crc.0 payload w hn crc.1 kept,
    )
