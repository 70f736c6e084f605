-- ===== src/Config/Tests.antt =====
-- The theorems on configurations at concrete values, and runs.
use air_tree.Common.{◌≡◌, ◌≢◌, refl, none, some}
use air_tree.Config.{
  ConfigParams, generator_2dxf, assign, find, register_generator, create, lookup_params, builtins,
  lookup_config, config_dims, xf, xnum, wire_nd, wire_from_options, create_wire, create_options,
}
use air_tree.Config.Laws.{lookup_config-config_dims, lookup_config-wire_from_options}

abbrev row : ConfigParams
row = record {
  wire = 0x10;
  dims = 2;
  bit_length = 10;
  node_width = 8;
  m_width = 3;
  precision_bits = 5;
}

fast_2d_row : lookup_config 0x10 ≡ some row
unfolding lookup_config lookup_params builtins register_generator assign find
fast_2d_row = refl

fast_2d_options : wire_from_options 2 xf ≡ some 0x10
unfolding wire_from_options wire_nd
fast_2d_options = refl

created :
    (create_options 2 xf ≡ some generator_2dxf)
    × (create_options 2 xnum ≡ none)
    × (create_options 5 xf ≡ none)
unfolding create_options create_wire create wire_from_options wire_nd builtins register_generator
    assign find
created = (refl, refl, refl)

lookup_config-config_dims_example :
    (row.wire ≡ 0x10) × (row.dims ≡ config_dims 0x10) × (create_wire 0x10 ≢ none)
lookup_config-config_dims_example = lookup_config-config_dims 0x10 row fast_2d_row

lookup_config-wire_from_options_example :
    (config_dims 0x10 ≡ 2) × (lookup_config 0x10 ≢ none) × (create_wire 0x10 ≢ none)
lookup_config-wire_from_options_example = lookup_config-wire_from_options 2 xf 0x10 fast_2d_options
