-- ===== src/Params/Load.antt =====
-- `LoadUbloxDriverParams` of ublox_driver/src/params/params.cpp with its readers of YAML nodes. The
-- YAML library and the file system are parameters.
use gnss_parser.Prelude.{
  ℕ, Bool, true, false, not, ◌&&◌, List, [], ◌∷◌, ◌++◌, ◌==◌, if◌then◌else◌, Option, none, some,
  bit_and, bit_or,
}
use gnss_parser.Prelude.Throws.{◌>>=◌, throw_if}
use gnss_parser.Prelude.Int.{ℤ}
use gnss_parser.Prelude.Text.{Bytes, codes, bytes_eq}
use gnss_parser.Gnss.Satellites.{sys_gps, sys_bds}
use gnss_parser.Config.{RcvConfigRecord}
use gnss_parser.Params.Text.{to_lower, trim, parse_bool_scalar, is_one_of}
use gnss_parser.Params.Center.{parse_u_center_config}

-- The kind of a `YAML::Node`; a null node is of another kind than the first three.
pub data Kind : Type 0 where
  scalar sequence mapping other : Kind

-- What the code uses of yaml-cpp: `YAML::Node()` and `IsDefined`, which is true of it in the library,
-- the pairs of a map and the items of a sequence in order, the text of a scalar, and the conversions
-- `as<T>`, which throw where they give nothing.
pub record Yaml (Node : Type 0) : Type 0 where
  pub empty : Node
  pub is_defined : Node → Bool
  pub kind : Node → Kind
  pub pairs : Node → List (Node × Node)
  pub items : Node → List Node
  pub text : Node → Bytes
  pub as_string : Node → Option Bytes
  pub as_long : Node → Option ℤ
  pub as_uint64 : Node → Option ℕ

-- What it uses of the file system and the environment. `at_home` has the variable HOME.
pub record Files (Node : Type 0) : Type 0 where
  pub at_home : Option Bytes
  pub is_relative : Bytes → Bool
  pub join : Bytes → Bytes → Bytes
  pub lexically_normal : Bytes → Bytes
  pub is_present : Bytes → Bool
  pub extension : Bytes → Bytes
  pub read : Bytes → Option Bytes
  pub load_yaml : Bytes → Option Node

pub record UbloxDriverParams : Type 0 where
  pub enable_serial : Bool
  pub serial_port : Bytes
  pub serial_baud_rate : ℤ
  pub raw_observation_system_mask : ℕ
  pub ephemeris_system_mask : ℕ
  pub enable_rtcm_tcp_loopback : Bool
  pub rtcm_tcp_port : ℕ
  pub enable_ntrip_rtcm : Bool
  pub ntrip_server : Bytes
  pub ntrip_port : ℕ
  pub ntrip_mountpoint : Bytes
  pub ntrip_username : Bytes
  pub ntrip_password : Bytes
  pub enable_config_bring : Bool
  pub receiver_config_path : Bytes
  pub receiver_configs : List RcvConfigRecord

unfoldable pub parse_supported_gnss_system_name : Bytes → Option ℕ
parse_supported_gnss_system_name raw_value =
    let normalized = to_lower (trim raw_value) in
    if bytes_eq normalized (codes "gps")
    then some sys_gps
    else if is_one_of normalized (codes "bds" ∷ codes "beidou" ∷ [])
    then some sys_bds
    else none

-- A read of a node: nothing where it throws.
module _ {Node : Type 0} (yaml : Yaml Node) where
  abbrev pub is_kind : Kind → Node → Bool
  is_kind scalar node = elim (yaml.kind node) [ scalar ↦ true | _ ↦ false ]
  is_kind sequence node = elim (yaml.kind node) [ sequence ↦ true | _ ↦ false ]
  is_kind mapping node = elim (yaml.kind node) [ mapping ↦ true | _ ↦ false ]
  is_kind other node = elim (yaml.kind node) [ other ↦ true | _ ↦ false ]

  -- The loop over the pairs of a map.
  unfoldable pub find_in : List (Node × Node) → List Bytes → Option Node
  find_in [] keys = some yaml.empty
  find_in ((key, value) ∷ pairs) keys =
      let rest = find_in pairs keys in
      let here = yaml.as_string key >>= λ (current : Bytes).
      if is_one_of current keys then some value else rest in
      if is_kind scalar key then here else rest

  unfoldable pub find_first_node : Node → List Bytes → Option Node
  find_first_node root keys =
      if is_kind mapping root then find_in (yaml.pairs root) keys else some yaml.empty

  abbrev required {ℓ} : {A : Type ℓ} → (Node → Option A) → Node → Option A
  required as_type value = if not (yaml.is_defined value) then none else as_type value

  abbrev with_default {ℓ} : {A : Type ℓ} → (Node → Option A) → A → Node → Option A
  with_default as_type default_value value =
      if not (yaml.is_defined value) then some default_value else as_type value

  unfoldable pub read_required {ℓ} : {A : Type ℓ} → (Node → Option A) → Node → Bytes → Option A
  read_required as_type root key = find_first_node root (key ∷ []) >>= required as_type

  unfoldable pub read_optional {ℓ} : {A : Type ℓ} → (Node → Option A) → Node → Bytes → A → Option A
  read_optional as_type root key default_value =
      find_first_node root (key ∷ []) >>= with_default as_type default_value

  unfoldable pub read_bool_node : Node → Option Bool
  read_bool_node node =
      if not (yaml.is_defined node)
      then some false
      else if not (is_kind scalar node)
      then none
      else parse_bool_scalar (yaml.text node)

  abbrev bool_or : Bool → Bool → Node → Option Bool
  bool_or default_value is_required value =
      if not (yaml.is_defined value)
      then (if is_required then none else some default_value)
      else read_bool_node value

  unfoldable pub read_bool : Node → Bytes → Bool → Bool → Option Bool
  read_bool root key default_value is_required =
      find_first_node root (key ∷ []) >>= bool_or default_value is_required

  abbrev pub system_of : Node → Option ℕ
  system_of node = yaml.as_string node >>= parse_supported_gnss_system_name

  unfoldable pub systems_of : List Node → Option ℕ
  systems_of [] = some 0
  systems_of (item ∷ items) = do
    _ ← throw_if (not (is_kind scalar item))
    here ← system_of item
    more ← systems_of items
    some (bit_or here more)

  -- Of a defined node.
  abbrev pub mask_in : Node → Option ℕ
  mask_in value = do
    mask ←
        (if is_kind scalar value
          then system_of value
          else if is_kind sequence value
          then systems_of (yaml.items value)
          else none)
    _ ← throw_if (mask == 0)
    some mask

  abbrev pub mask_of : ℕ → Node → Option ℕ
  mask_of default_mask value =
      if not (yaml.is_defined value) then some default_mask else mask_in value

  unfoldable pub parse_gnss_system_mask : Node → Bytes → ℕ → Option ℕ
  parse_gnss_system_mask root key default_mask =
      find_first_node root (key ∷ []) >>= mask_of default_mask

  -- The pairs of a receiver configuration in YAML.
  unfoldable pub yaml_configs : List (Node × Node) → Option (List RcvConfigRecord)
  yaml_configs [] = some []
  yaml_configs ((key, value) ∷ pairs) = do
    name ← yaml.as_string key
    text ← yaml.as_string value
    more ← yaml_configs pairs
    some (
        (record {
          key_name = name;
          value_text = text;
          key_id = 0;
          value_bytes = [];
          use_raw_key_value = false;
        })
        ∷ more)

  module _ (files : Files Node) where
    abbrev expanded : Bytes → Option Bytes
    expanded [] = none
    expanded (c ∷ cs) =
        if c == 126 then (files.at_home >>= λ (home : Bytes). some (home ++ cs)) else some (c ∷ cs)

    unfoldable pub resolve_path : Bytes → Bytes → Option Bytes
    resolve_path path base_dir = do
      expanded_path ← expanded path
      let joined =
          if files.is_relative expanded_path
          then files.join base_dir expanded_path
          else expanded_path
      _ ← throw_if (not (files.is_present (files.lexically_normal joined)))
      some (files.lexically_normal joined)

    abbrev load_configs : Bytes → Option (List RcvConfigRecord)
    load_configs path =
        if is_one_of (to_lower (files.extension path)) (codes ".yaml" ∷ codes ".yml" ∷ [])
        then (files.load_yaml path >>= λ (root : Node). yaml_configs (yaml.pairs root))
        else (files.read path >>= parse_u_center_config)

    abbrev path_of : Node → Bytes → Option Bytes
    path_of root [] = read_required yaml.as_string root (codes "config_path")
    path_of root (c ∷ cs) = some (c ∷ cs)

    -- The reads of `LoadUbloxDriverParams` in its order, each part with what comes behind it.
    abbrev pub config_fields : Node → Bytes → Bytes → Bool → Option (Bytes × List RcvConfigRecord)
    config_fields root config_dir receiver_config_override false = some ([], [])
    config_fields root config_dir receiver_config_override true = do
      path ← path_of root receiver_config_override
      resolved ← resolve_path path config_dir
      configs ← load_configs resolved
      some (resolved, configs)

    abbrev pub loopback_port : Node → Bool → Option ℕ
    loopback_port root false = some 0
    loopback_port root true = read_required yaml.as_uint64 root (codes "rtcm_tcp_port")

    abbrev pub ntrip_fields : Node → Bool → Option (Bytes × ℕ × Bytes × Bytes × Bytes)
    ntrip_fields root false = some ([], 0, [], [], [])
    ntrip_fields root true = do
      server ← read_required yaml.as_string root (codes "ntrip_server")
      port ← read_required yaml.as_uint64 root (codes "ntrip_port")
      mountpoint ← read_required yaml.as_string root (codes "ntrip_mountpoint")
      username ← read_optional yaml.as_string root (codes "ntrip_username") []
      password ← read_optional yaml.as_string root (codes "ntrip_password") []
      some (server, port, mountpoint, username, password)

    -- `root` is the loaded driver configuration and `config_dir` the folder of its file.
    unfoldable pub load_ublox_driver_params : Node → Bytes → Bytes → Option UbloxDriverParams
    load_ublox_driver_params root config_dir receiver_config_override = do
      serial ← read_bool root (codes "enable_serial") true true
      _ ← throw_if (not serial)
      port ← read_required yaml.as_string root (codes "serial_port")
      baud ← read_required yaml.as_long root (codes "serial_baud_rate")
      loopback ← read_bool root (codes "enable_rtcm_tcp_loopback") false false
      tcp_port ← loopback_port root loopback
      ntrip ← read_bool root (codes "enable_ntrip_rtcm") false false
      fields ← ntrip_fields root ntrip
      raw_mask ←
          parse_gnss_system_mask root (codes "raw_observation_systems") (bit_or sys_gps sys_bds)
      ephem_mask ← parse_gnss_system_mask root (codes "ephemeris_systems") (bit_or sys_gps sys_bds)
      _ ← throw_if (loopback && ntrip)
      bring ← read_bool root (codes "enable_config_bring") false false
      config ← config_fields root config_dir receiver_config_override bring
      some (record {
        enable_serial = serial;
        serial_port = port;
        serial_baud_rate = baud;
        raw_observation_system_mask = raw_mask;
        ephemeris_system_mask = ephem_mask;
        enable_rtcm_tcp_loopback = loopback;
        rtcm_tcp_port = tcp_port;
        enable_ntrip_rtcm = ntrip;
        ntrip_server = fields.0;
        ntrip_port = fields.1;
        ntrip_mountpoint = fields.2;
        ntrip_username = fields.3;
        ntrip_password = fields.4;
        enable_config_bring = bring;
        receiver_config_path = config.0;
        receiver_configs = config.1;
      })

abbrev names_of : Bool → Bool → Bytes
names_of false false = codes "<none>"
names_of true false = codes "GPS"
names_of false true = codes "BDS"
names_of true true = codes "GPS,BDS"

unfoldable pub gnss_system_mask_to_string : ℕ → Bytes
gnss_system_mask_to_string mask =
    names_of (not (bit_and mask sys_gps == 0)) (not (bit_and mask sys_bds == 0))
