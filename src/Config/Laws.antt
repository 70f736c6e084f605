-- ===== src/Config/Laws.antt =====
-- The registry as a map, and what is registered.
use air_tree.Common.{ℕ, ◌≡◌, refl, arith, none, some, ◌≢◌, List, [], ◌∷◌, ◌==◌, if◌then◌else◌}
use air_tree.Config.{
  ConfigParams, Generator, assign, find, Registry, register_generator, create, lookup_params,
  builtins, lookup_config, config_dims, ConfigType, xp, xt, xf, xnum, wire_1d, wire_nd,
  wire_from_options, create_wire,
}

find-assign {ℓ} :
    {A : Type ℓ} (key other : ℕ) (value : A) (entries : List (ℕ × A))
    → find other (assign key value entries)
      ≡ (if key == other then some value else find other entries)
unfolding find assign
find-assign key other value [] = refl
find-assign key other value ((k, v) ∷ entries) = ground (arith, find-assign key other value entries)

-- After a registration the registry knows the new parameters and generator for this wire value, and
-- what it knew before for every other.
pub lookup-register_generator :
    (wire other : ℕ) (params : ConfigParams) (factory : Generator) (registry : Registry)
    → let registered = register_generator wire params factory registry in
      (lookup_params registered other
        ≡ (if wire == other then some params else lookup_params registry other))
      × (create registered other ≡ (if wire == other then some factory else create registry other))
unfolding register_generator lookup_params create
lookup-register_generator wire other params factory registry = (
  find-assign wire other params registry.params,
  find-assign wire other factory registry.factories,
)

-- The parameters that are looked up for a wire value name this value, and the dimensions that its
-- upper four bits stand for; a generator is registered for it.
pub lookup_config-config_dims :
    (wire : ℕ) (p : ConfigParams)
    → lookup_config wire ≡ some p
    → (p.wire ≡ wire) × (p.dims ≡ config_dims wire) × (create_wire wire ≢ none)
unfolding lookup_config lookup_params builtins register_generator assign find config_dims
    create_wire create
lookup_config-config_dims wire p e = ground arith

-- The configuration chosen for options is one of the options' dimensions, and the registry has its
-- parameters and its generator.
pub lookup_config-wire_from_options :
    (dimensions : ℕ) (type : ConfigType) (wire : ℕ)
    → wire_from_options dimensions type ≡ some wire
    → (config_dims wire ≡ dimensions) × (lookup_config wire ≢ none) × (create_wire wire ≢ none)
unfolding wire_from_options wire_1d wire_nd lookup_config lookup_params builtins register_generator
    assign find config_dims create_wire create
lookup_config-wire_from_options dimensions xt wire e = ground arith
lookup_config-wire_from_options dimensions xf wire e = ground arith
lookup_config-wire_from_options dimensions xp wire e = ground arith
lookup_config-wire_from_options dimensions xnum wire e = ground arith
