-- ===== src/Config.antt =====
-- airtree-core/include/airtree/core/common/ConfigWire.hpp, src/common/ConfigWire.cpp and
-- src/api/AirTreeGenerator.cpp: the configurations, the registry that knows them, and the choice of a
-- configuration from the options. A `ConfigWire` is a byte, which need not be one of the enumerators.
-- The registry, which is changed before `main` only, is that of the built-in registrations: the
-- repository has no other.
-- A generator is named by its configuration; what it generates is not modelled here.
pub mod Laws
mod Tests
use air_tree.Common.{ℕ, ◌+◌, Option, none, some, List, [], ◌∷◌, ◌==◌, if◌then◌else◌, shr, ◌>>=◌}

abbrev pub config_1d_tiny : ℕ
config_1d_tiny = 0x00

abbrev pub config_1d_fast : ℕ
config_1d_fast = 0x01

abbrev pub config_1d_precise : ℕ
config_1d_precise = 0x02

abbrev pub config_2d_fast : ℕ
config_2d_fast = 0x10

abbrev pub config_2d_precise : ℕ
config_2d_precise = 0x11

abbrev pub config_3d_fast : ℕ
config_3d_fast = 0x20

abbrev pub config_3d_precise : ℕ
config_3d_precise = 0x21

abbrev pub config_4d_fast : ℕ
config_4d_fast = 0x30

abbrev pub config_4d_precise : ℕ
config_4d_precise = 0x31

pub record ConfigParams : Type 0 where
  pub wire : ℕ
  pub dims : ℕ
  pub bit_length : ℕ
  pub node_width : ℕ
  pub m_width : ℕ
  pub precision_bits : ℕ

pub data Generator : Type 0 where
  generator_1dxt generator_1dxf generator_1dxp generator_2dxf generator_2dxp : Generator
  generator_3dxf generator_3dxp generator_4dxf generator_4dxp : Generator

-- `map[key] = value` and `map.find(key)`.
module _ {ℓ} {A : Type ℓ} where
  unfoldable pub assign : ℕ → A → List (ℕ × A) → List (ℕ × A)
  assign key value [] = (key, value) ∷ []
  assign key value ((k, v) ∷ entries) =
      let rest = assign key value entries in
      if k == key then (key, value) ∷ entries else (k, v) ∷ rest

  unfoldable pub find : ℕ → List (ℕ × A) → Option A
  find key [] = none
  find key ((k, v) ∷ entries) = let rest = find key entries in if k == key then some v else rest

pub record Registry : Type 0 where
  pub params : List (ℕ × ConfigParams)
  pub factories : List (ℕ × Generator)

unfoldable pub register_generator : ℕ → ConfigParams → Generator → Registry → Registry
unfolding assign
register_generator wire params factory registry = record {
  params = assign wire params registry.params;
  factories = assign wire factory registry.factories;
}

unfoldable pub create : Registry → ℕ → Option Generator
unfolding find
create registry wire = find wire registry.factories

unfoldable pub lookup_params : Registry → ℕ → Option ConfigParams
unfolding find
lookup_params registry wire = find wire registry.params

abbrev config_params_row : ℕ → ℕ → ℕ → ℕ → ℕ → ℕ → ConfigParams
config_params_row wire dims bit_length node_width m_width precision_bits = record {
  wire = wire;
  dims = dims;
  bit_length = bit_length;
  node_width = node_width;
  m_width = m_width;
  precision_bits = precision_bits;
}

abbrev pub register_row : ℕ → ℕ → ℕ → ℕ → ℕ → ℕ → Generator → Registry → Registry
unfolding register_generator
register_row wire dims bit_length node_width m_width precision_bits generator registry =
    register_generator wire
      (config_params_row wire dims bit_length node_width m_width precision_bits) generator registry

-- The registry with the built-in configurations, registered one after the other.
unfoldable pub builtins : Registry
unfolding register_generator
builtins =
    let r0 : Registry = record { params = []; factories = [] } in
    let r1 = register_row config_1d_tiny 1 13 8 4 7 generator_1dxt r0 in
    let r2 = register_row config_1d_fast 1 16 8 4 10 generator_1dxf r1 in
    let r3 = register_row config_1d_precise 1 20 8 5 13 generator_1dxp r2 in
    let r4 = register_row config_2d_fast 2 10 8 3 5 generator_2dxf r3 in
    let r5 = register_row config_2d_precise 2 12 10 4 6 generator_2dxp r4 in
    let r6 = register_row config_3d_fast 3 10 8 3 5 generator_3dxf r5 in
    let r7 = register_row config_3d_precise 3 12 10 4 6 generator_3dxp r6 in
    let r8 = register_row config_4d_fast 4 10 8 3 5 generator_4dxf r7 in
    register_row config_4d_precise 4 12 10 4 6 generator_4dxp r8

unfoldable pub lookup_config : ℕ → Option ConfigParams
unfolding lookup_params builtins
lookup_config wire = lookup_params builtins wire

unfoldable pub config_dims : ℕ → ℕ
config_dims wire = shr wire 4 + 1

pub data ConfigType : Type 0 where
  xp xt xf xnum : ConfigType

-- The inner `switch` statements, one for each number of dimensions.
unfoldable pub wire_1d : ConfigType → Option ℕ
wire_1d xt = some config_1d_tiny
wire_1d xf = some config_1d_fast
wire_1d xp = some config_1d_precise
wire_1d xnum = none

unfoldable pub wire_nd : ℕ → ℕ → ConfigType → Option ℕ
wire_nd fast precise xf = some fast
wire_nd fast precise xp = some precise
wire_nd fast precise _ = none

-- `dimensions` is the pattern of an `int`.
unfoldable pub wire_from_options : ℕ → ConfigType → Option ℕ
unfolding wire_1d wire_nd
wire_from_options dimensions type =
    if dimensions == 1
    then wire_1d type
    else if dimensions == 2
    then wire_nd config_2d_fast config_2d_precise type
    else if dimensions == 3
    then wire_nd config_3d_fast config_3d_precise type
    else if dimensions == 4
    then wire_nd config_4d_fast config_4d_precise type
    else none

-- `AirTreeGeneratorFactory::create` from a configuration and from options.
unfoldable pub create_wire : ℕ → Option Generator
unfolding create builtins
create_wire wire = create builtins wire

unfoldable pub create_options : ℕ → ConfigType → Option Generator
unfolding create_wire wire_from_options
create_options dimensions type = do wire ← wire_from_options dimensions type; create_wire wire
