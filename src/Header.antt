-- ===== src/Header.antt =====
-- airtree-core/src/common/AirTreeHeader.cpp and include/airtree/core/common/AirTreeHeader.hpp: the
-- header in front of a stored trie. A `char` is a byte, a number below 256. A thrown exception is an
-- error; `out_of_bounds` is none of the code's: it stands for an access outside the buffer, which is
-- undefined there.
pub mod Bytes
pub mod Crc
pub mod CrcLaws
pub mod Values
pub mod Safety
pub mod RoundTrip
pub mod Accept
pub mod Made
pub mod Finalize
mod Tests
use air_tree.Common.{
  ℕ, ◌+◌, ◌-◌, Bool, true, false, not, ◌&&◌, some, none, List, [], ◌∷◌, ◌++◌, ltb, ◌==◌,
  if◌then◌else◌, length, Option, wrap_sub,
}
use air_tree.Config.{ConfigParams, lookup_config}
use air_tree.Header.Bytes.{
  HeaderError, Result, ok, err, ◌>>=◌, buffer_too_small, invalid_magic, unsupported_version,
  header_length_too_small, declared_length_too_large, crc_mismatch, unknown_config, out_of_bounds,
  at, read_le16, read_le32, read_le64, write_le16, write_le32, write_le64, patch_le32, patch_le64,
}
use air_tree.Header.Crc.{compute_crc32}

-- `kHeaderLength`.
abbrev pub header_size : ℕ
header_size = 49

pub record AirTreeHeader : Type 0 where
  pub version : ℕ
  pub header_length : ℕ
  pub config : ℕ
  pub data_types : ℕ × ℕ × ℕ × ℕ
  pub payload_length : ℕ
  pub trie_count : ℕ
  pub pos_inf_count : ℕ
  pub neg_inf_count : ℕ
  pub pos_zero_count : ℕ
  pub neg_zero_count : ℕ
  pub nan_count : ℕ

-- Whether a lookup found something.
abbrev pub found : Option ConfigParams → Bool
found none = false
found (some p) = true

unfoldable pub make_header : ℕ → ℕ × ℕ × ℕ × ℕ → ℕ → ℕ → ℕ → ℕ → ℕ → ℕ → Result AirTreeHeader
make_header config data_types trie_count pos_inf neg_inf pos_zero neg_zero nan =
    if not (found (lookup_config config))
    then err unknown_config
    else ok (record {
      version = 1;
      header_length = header_size;
      config = config;
      data_types = data_types;
      payload_length = 0;
      trie_count = trie_count;
      pos_inf_count = pos_inf;
      neg_inf_count = neg_inf;
      pos_zero_count = pos_zero;
      neg_zero_count = neg_zero;
      nan_count = nan;
    })

unfoldable pub serialize_header : AirTreeHeader → List ℕ → List ℕ
unfolding write_le16 write_le32 write_le64
serialize_header header buffer =
    let (d0, d1, d2, d3) = header.data_types in
    let b0 = buffer ++ (0x41 ∷ 0x49 ∷ 0x52 ∷ 0x54 ∷ []) in
    let b1 = write_le16 b0 header.version in
    let b2 = write_le16 b1 header.header_length in
    let b3 = b2 ++ (header.config ∷ []) in
    let b4 = b3 ++ (d0 ∷ d1 ∷ d2 ∷ d3 ∷ []) in
    let b5 = write_le64 b4 header.payload_length in
    let b6 = write_le32 b5 header.trie_count in
    let b7 = write_le32 b6 header.pos_inf_count in
    let b8 = write_le32 b7 header.neg_inf_count in
    let b9 = write_le32 b8 header.pos_zero_count in
    let b10 = write_le32 b9 header.neg_zero_count in
    let b11 = write_le32 b10 header.nan_count in write_le32 b11 0

-- The stages of `deserializeHeader`, the last one first.
unfoldable pub populate : ℕ → ℕ → ℕ → List ℕ → Result AirTreeHeader
unfolding at read_le32 read_le64
populate version header_length wire buffer = do
  d0 ← at buffer (9 + 0)
  d1 ← at buffer (9 + 1)
  d2 ← at buffer (9 + 2)
  d3 ← at buffer (9 + 3)
  payload_length ← read_le64 buffer 13
  trie_count ← read_le32 buffer 21
  pos_inf_count ← read_le32 buffer 25
  neg_inf_count ← read_le32 buffer 29
  pos_zero_count ← read_le32 buffer 33
  neg_zero_count ← read_le32 buffer 37
  nan_count ← read_le32 buffer 41
  ok (record {
    version = version;
    header_length = header_length;
    config = wire;
    data_types = (d0, d1, d2, d3);
    payload_length = payload_length;
    trie_count = trie_count;
    pos_inf_count = pos_inf_count;
    neg_inf_count = neg_inf_count;
    pos_zero_count = pos_zero_count;
    neg_zero_count = neg_zero_count;
    nan_count = nan_count;
  })

unfoldable pub check_config : ℕ → ℕ → List ℕ → Result AirTreeHeader
check_config version header_length buffer = do
  wire ← at buffer 8
  if not (found (lookup_config wire))
      then err unknown_config
      else populate version header_length wire buffer

unfoldable pub check_crc : ℕ → ℕ → List ℕ → Result AirTreeHeader
check_crc version header_length buffer = do
  stored_crc ← read_le32 buffer (header_length - 4)
  computed_crc ← compute_crc32 buffer (header_length - 4)
  if not (stored_crc == computed_crc)
      then err crc_mismatch
      else check_config version header_length buffer

unfoldable pub check_length : ℕ → List ℕ → Result AirTreeHeader
check_length version buffer = do
  header_length ← read_le16 buffer 6
  if ltb header_length header_size
      then err header_length_too_small
      else if ltb (length buffer) header_length
      then err declared_length_too_large
      else check_crc version header_length buffer

unfoldable pub check_version : List ℕ → Result AirTreeHeader
check_version buffer = do
  version ← read_le16 buffer 4
  if ltb 1 version then err unsupported_version else check_length version buffer

unfoldable pub check_magic : List ℕ → Result AirTreeHeader
check_magic buffer = do
  m0 ← at buffer 0
  m1 ← at buffer 1
  m2 ← at buffer 2
  m3 ← at buffer 3
  if not (m0 == 0x41 && m1 == 0x49 && m2 == 0x52 && m3 == 0x54)
      then err invalid_magic
      else check_version buffer

unfoldable pub deserialize_header : List ℕ → Result AirTreeHeader
unfolding check_magic
deserialize_header buffer =
    if ltb (length buffer) header_size then err buffer_too_small else check_magic buffer

-- `header_length - 4` is a `size_t`: below 4 it wraps around.
unfoldable pub finalize_header : List ℕ → ℕ → Result (List ℕ)
finalize_header buffer payload_length =
    if ltb (length buffer) header_size then err buffer_too_small else do
      header_length ← read_le16 buffer 6
      patched ← patch_le64 buffer 13 payload_length
      crc ← compute_crc32 patched (wrap_sub 64 header_length 4)
      patch_le32 patched (wrap_sub 64 header_length 4) crc

unfoldable pub config_params : AirTreeHeader → Result ConfigParams
config_params header = elim (lookup_config header.config) [
  | none ↦ err unknown_config
  | some p ↦ ok p
]
