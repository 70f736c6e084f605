-- ===== src/Header/Made.antt =====
-- A header made by `makeHeader` is one that the reader accepts.
use air_tree.Common.{
  ℕ, ◌^◌, ◌<◌, ◌≡◌, refl, arith, Bool-cases, inl, inr, List, [], ◌++◌, true, if◌then◌else◌, some,
  none, Option,
}
use air_tree.Config.{ConfigParams, lookup_config, config_dims}
use air_tree.Config.Laws.{lookup_config-config_dims}
use air_tree.Header.Bytes.{Result, ok, err, unknown_config, ◌>>=◌}
use air_tree.Header.{
  AirTreeHeader, found, make_header, serialize_header, deserialize_header, finalize_header,
  config_params,
}
use air_tree.Header.RoundTrip.{deserialize-finalize_header}
use air_tree.Header.Accept.{deserialize_header-accepts}

module _ (config : ℕ) (types : ℕ × ℕ × ℕ × ℕ) (tries pos_inf neg_inf pos_zero neg_zero nan n : ℕ)
    (payload : List ℕ) where
  -- What is written for a trie: the header is made, serialized in front of the payload, finalized.
  abbrev pub store : Result (List ℕ)
  store = do
    h ← make_header config types tries pos_inf neg_inf pos_zero neg_zero nan
    finalize_header (serialize_header h [] ++ payload) n

  -- Storing under an unknown configuration throws; under a known one the reader gets back the
  -- configuration, types and counts, with version 1 and the payload length, where the counts fit 32
  -- bits and the length 64.
  pub deserialize-make_header :
      tries < 2 ^ 32
      → pos_inf < 2 ^ 32
      → neg_inf < 2 ^ 32
      → pos_zero < 2 ^ 32
      → neg_zero < 2 ^ 32
      → nan < 2 ^ 32
      → n < 2 ^ 64
      → (store >>= deserialize_header) ≡ (
          if found (lookup_config config)
          then ok (record {
            version = 1;
            header_length = 49;
            config = config;
            data_types = types;
            payload_length = n;
            trie_count = tries;
            pos_inf_count = pos_inf;
            neg_inf_count = neg_inf;
            pos_zero_count = pos_zero;
            neg_zero_count = neg_zero;
            nan_count = nan;
          })
          else err unknown_config)
  unfolding make_header
  deserialize-make_header ht hpi hni hpz hnz hn fits =
      elim (Bool-cases (found (lookup_config config))) [
        | inl known ↦ rw known (
            deserialize-finalize_header _ n payload
              (record {
                version = omega arith;
                header_length = refl;
                known = known;
                trie_count = ht;
                pos_inf_count = hpi;
                neg_inf_count = hni;
                pos_zero_count = hpz;
                neg_zero_count = hnz;
                nan_count = hn;
              })
              fits)
        | inr unknown ↦ rw unknown refl
      ]

found-some : (o : Option ConfigParams) → found o ≡ true → (p : ConfigParams) × (o ≡ some p)
found-some none e = cc
found-some (some p) e = (p, refl)

config_params_lem :
    (h : AirTreeHeader) (p : ConfigParams)
    → lookup_config h.config ≡ some p
    → config_params h ≡ ok p
unfolding config_params
config_params_lem h p e = rw (config_params, e) refl

-- An accepted header has parameters: those registered for its configuration, which name it and the
-- dimensions that its upper four bits stand for.
pub config_params-deserialize_header :
    (buffer : List ℕ) (h : AirTreeHeader)
    → deserialize_header buffer ≡ ok h
    → (p : ConfigParams) × (config_params h ≡ ok p)
      × (p.wire ≡ h.config)
      × (p.dims ≡ config_dims h.config)
config_params-deserialize_header buffer h e =
    let accepted = deserialize_header-accepts buffer h e in
    let params = found-some (lookup_config h.config) accepted.3 in
    let named = lookup_config-config_dims h.config params.0 params.1 in
    (params.0, config_params_lem h params.0 params.1, named.0, named.1)
