-- ===== src/Header/Tests.antt =====
-- The theorems on headers at concrete headers and buffers, and runs.
use air_tree.Common.{
  ℕ, ◌-◌, ◌≤◌, ◌≡◌, refl, arith, List, [], ◌∷◌, ◌++◌, true, length, if◌then◌else◌,
}
use air_tree.Config.{
  ConfigParams, lookup_config, lookup_params, builtins, register_generator, assign, find,
  config_dims,
}
use air_tree.Header.Bytes.{
  ok, err, unknown_config, out_of_bounds, ◌>>=◌, at, read_le16, read_le32, read_le64, read_loop,
}
use air_tree.Header.Crc.{compute_crc32, crc_loop, crc_table, crc_entry}
use air_tree.Header.{
  AirTreeHeader, header_size, found, serialize_header, deserialize_header, finalize_header,
  config_params, populate, check_magic, check_version, check_length, check_crc, check_config,
}
use air_tree.Header.RoundTrip.{IsWire, deserialize-finalize_header}
use air_tree.Header.Accept.{HasChecksum, deserialize_header-accepts}
use air_tree.Header.Made.{store, deserialize-make_header, config_params-deserialize_header}
use air_tree.Header.Finalize.{finalize_header-out_of_bounds}

abbrev sample : AirTreeHeader
sample = record {
  version = 1;
  header_length = 49;
  config = 0x10;
  data_types = (1, 1, 0, 0);
  payload_length = 1000;
  trie_count = 7;
  pos_inf_count = 1;
  neg_inf_count = 2;
  pos_zero_count = 3;
  neg_zero_count = 4;
  nan_count = 70000;
}

abbrev stored : List ℕ
stored =
    65 ∷ 73 ∷ 82 ∷ 84 ∷ 1 ∷ 0 ∷ 49 ∷ 0 ∷ 16 ∷ 1 ∷ 1 ∷ 0 ∷ 0 ∷ 232 ∷ 3 ∷ 0 ∷ 0 ∷ 0 ∷ 0 ∷ 0 ∷ 0 ∷ 7
    ∷ 0 ∷ 0 ∷ 0 ∷ 1 ∷ 0 ∷ 0 ∷ 0 ∷ 2 ∷ 0 ∷ 0 ∷ 0 ∷ 3 ∷ 0 ∷ 0 ∷ 0 ∷ 4 ∷ 0 ∷ 0 ∷ 0 ∷ 112 ∷ 17 ∷ 1 ∷ 0
    ∷ 146 ∷ 20 ∷ 178 ∷ 47 ∷ []

stored-read : deserialize_header stored ≡ ok sample
unfolding deserialize_header check_magic check_version check_length check_crc check_config populate
    at read_le16 read_le32 read_le64 read_loop compute_crc32 crc_loop crc_table crc_entry
    lookup_config lookup_params builtins register_generator assign find
stored-read = refl

sample_known : found (lookup_config 0x10) ≡ true
unfolding lookup_config lookup_params builtins register_generator assign find
sample_known = refl

sample-IsWire : IsWire sample
sample-IsWire = record {
  version = omega arith;
  header_length = refl;
  known = sample_known;
  trie_count = omega arith;
  pos_inf_count = omega arith;
  neg_inf_count = omega arith;
  pos_zero_count = omega arith;
  neg_zero_count = omega arith;
  nan_count = omega arith;
}

deserialize-finalize_header_example :
    (finalize_header (serialize_header sample [] ++ (5 ∷ 6 ∷ [])) 2 >>= deserialize_header)
    ≡ ok (record sample { payload_length = 2 })
deserialize-finalize_header_example =
    deserialize-finalize_header sample 2 (5 ∷ 6 ∷ []) sample-IsWire (omega arith)

deserialize-make_header_example :
    (store 0x10 (1, 1, 0, 0) 7 1 2 3 4 70000 2 (5 ∷ 6 ∷ []) >>= deserialize_header) ≡ (
      if found (lookup_config 0x10)
      then ok (record sample { payload_length = 2 })
      else err unknown_config)
deserialize-make_header_example =
    deserialize-make_header 0x10 (1, 1, 0, 0) 7 1 2 3 4 70000 2 (5 ∷ 6 ∷ []) (omega arith)
      (omega arith) (omega arith) (omega arith) (omega arith) (omega arith) (omega arith)

deserialize_header-accepts_example :
    (1 ≤ 1)
    × (header_size ≤ 49)
    × (49 ≤ length stored)
    × (found (lookup_config 0x10) ≡ true)
    × HasChecksum stored (49 - 4)
deserialize_header-accepts_example = deserialize_header-accepts stored sample stored-read

config_params-deserialize_header_example :
    (p : ConfigParams) × (config_params sample ≡ ok p)
    × (p.wire ≡ 0x10)
    × (p.dims ≡ config_dims 0x10)
config_params-deserialize_header_example =
    config_params-deserialize_header stored sample stored-read

-- The same bytes with the declared length 3.
abbrev short : List ℕ
short =
    65 ∷ 73 ∷ 82 ∷ 84 ∷ 1 ∷ 0 ∷ 3 ∷ 0 ∷ 16 ∷ 1 ∷ 1 ∷ 0 ∷ 0 ∷ 232 ∷ 3 ∷ 0 ∷ 0 ∷ 0 ∷ 0 ∷ 0 ∷ 0 ∷ 7 ∷ 0
    ∷ 0 ∷ 0 ∷ 1 ∷ 0 ∷ 0 ∷ 0 ∷ 2 ∷ 0 ∷ 0 ∷ 0 ∷ 3 ∷ 0 ∷ 0 ∷ 0 ∷ 4 ∷ 0 ∷ 0 ∷ 0 ∷ 112 ∷ 17 ∷ 1 ∷ 0 ∷ 146
    ∷ 20 ∷ 178 ∷ 47 ∷ []

short_length : read_le16 short 6 ≡ ok 3
unfolding read_le16 at
short_length = refl

finalize_header-out_of_bounds_example : finalize_header short 9 ≡ err out_of_bounds
finalize_header-out_of_bounds_example =
    finalize_header-out_of_bounds short 9 3 (omega arith) short_length (omega arith) (omega arith)
