-- ===== src/Params/Missing.antt =====
-- What `LoadUbloxDriverParams` of ublox_driver/src/params/params.cpp makes of missing keys.
use gnss_parser.Prelude.{
  ℕ, ◌≡◌, refl, ap, Bool, true, false, List, [], ◌∷◌, none, some, bit_or, All, ◌≢◌,
}
use gnss_parser.Prelude.Text.{Bytes, codes}
use gnss_parser.Gnss.Satellites.{sys_gps, sys_bds}
use gnss_parser.Params.Load.{
  Yaml, Files, UbloxDriverParams, parse_gnss_system_mask, find_first_node, load_ublox_driver_params,
  read_bool, scalar, sequence, other, is_kind, read_bool_node,
}
use gnss_parser.Params.Checked.{load_ublox_driver_params-Reads}

-- The keys that the code reads with a default in every run.
abbrev pub keys_with_default : List Bytes
keys_with_default =
    codes "enable_rtcm_tcp_loopback"
    ∷ codes "enable_ntrip_rtcm"
    ∷ codes "raw_observation_systems"
    ∷ codes "ephemeris_systems"
    ∷ codes "enable_config_bring"
    ∷ []

module _ {Node : Type 0} (yaml : Yaml Node) (defined : yaml.is_defined yaml.empty ≡ true)
    (null : yaml.kind yaml.empty ≡ other) where
  not_scalar : is_kind yaml scalar yaml.empty ≡ false
  not_scalar = ap (λ k. elim k [ scalar ↦ true | _ ↦ false ]) null

  not_sequence : is_kind yaml sequence yaml.empty ≡ false
  not_sequence = ap (λ k. elim k [ sequence ↦ true | _ ↦ false ]) null

  empty_lem :
      (root : Node) (key : Bytes)
      → find_first_node yaml root (key ∷ []) ≡ some yaml.empty
      → ((b : Bool) → read_bool yaml root key b false ≡ none)
        × ((m : ℕ) → parse_gnss_system_mask yaml root key m ≡ none)
  unfolding read_bool read_bool_node parse_gnss_system_mask
  empty_lem root key e = (
    λ b. rw (e, defined, not_scalar) refl,
    λ m. rw (e, defined) (rw (not_scalar, not_sequence) refl),
  )

  lost_bool :
      (root : Node) (key : Bytes) (b : Bool)
      → read_bool yaml root key false false ≡ some b
      → find_first_node yaml root (key ∷ []) ≢ some yaml.empty
  lost_bool root key b found h = let lost = (empty_lem root key h).0 false in cc

  lost_mask :
      (root : Node) (key : Bytes) (m : ℕ)
      → parse_gnss_system_mask yaml root key (bit_or sys_gps sys_bds) ≡ some m
      → find_first_node yaml root (key ∷ []) ≢ some yaml.empty
  lost_mask root key m found h = let lost = (empty_lem root key h).1 (bit_or sys_gps sys_bds) in cc

  -- In yaml-cpp `YAML::Node()`, which stands for a missing key, is a defined node that is neither a
  -- scalar nor a sequence. With such a node, no parameters are loaded from a document in which one of
  -- the five keys that have a default in every run is missing, or has that node as its value.
  pub load_ublox_driver_params-needs_keys :
      (files : Files Node) (root : Node) (config_dir receiver_config_override : Bytes)
      (p : UbloxDriverParams)
      → load_ublox_driver_params yaml files root config_dir receiver_config_override ≡ some p
      → All (λ key. find_first_node yaml root (key ∷ []) ≢ some yaml.empty) keys_with_default
  load_ublox_driver_params-needs_keys files root config_dir receiver_config_override p e =
      let reads =
        load_ublox_driver_params-Reads yaml files root config_dir receiver_config_override p e in
      (
        lost_bool root (codes "enable_rtcm_tcp_loopback") _ reads.loopback_read,
        (
          lost_bool root (codes "enable_ntrip_rtcm") _ reads.ntrip_read,
          (
            lost_mask root (codes "raw_observation_systems") _ reads.raw_read,
            (
              lost_mask root (codes "ephemeris_systems") _ reads.ephem_read,
              (lost_bool root (codes "enable_config_bring") _ reads.bring_read, tt),
            ),
          ),
        ),
      )
