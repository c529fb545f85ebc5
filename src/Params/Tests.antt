-- ===== src/Params/Tests.antt =====
-- Runs of the parameter reader, and the theorems at concrete inputs.
use gnss_parser.Prelude.{
  All, ◌≢◌, ℕ, ◌+◌, ◌≡◌, refl, true, false, List, [], ◌∷◌, ◌++◌, Option, none, some, arith, map,
  length, ◌&&◌,
}
use gnss_parser.Prelude.Int.{pos}
use gnss_parser.Prelude.Text.{Bytes, codes, bytes_eq}
use gnss_parser.Ubx.Frame.Spec.{frame}
use gnss_parser.Config.{built, build_config_msg}
use gnss_parser.Config.Framed.{valset}
use gnss_parser.Params.Text.{
  parse_bool_scalar, mask_secret, trim, trim_left, trim_right, to_lower_char,
}
use gnss_parser.Params.Center.{records_of_bytes, records_of_line}
use gnss_parser.Params.Load.{
  Kind, scalar, sequence, mapping, other, Yaml, Files, UbloxDriverParams, find_in, find_first_node,
  read_required, read_optional, read_bool_node, read_bool, systems_of, parse_gnss_system_mask,
  parse_supported_gnss_system_name, load_ublox_driver_params, gnss_system_mask_to_string,
}
use gnss_parser.Params.Checked.{IsSupported, load_ublox_driver_params-checked}
use gnss_parser.Params.Missing.{keys_with_default, load_ublox_driver_params-needs_keys}
use gnss_parser.Params.Records.{
  IsItem, item_record, item_bytes, line_bytes, records_of_bytes-build_config_msg,
}
use gnss_parser.Params.Hex.{valset_line, records_of_line-valset_line}

bool-run : parse_bool_scalar (codes "  Yes ") ≡ some true
unfolding parse_bool_scalar trim trim_left trim_right to_lower_char bytes_eq
bool-run = refl

secret-run : mask_secret (codes "secret") ≡ codes "s****t"
unfolding mask_secret
secret-run = refl

names-run : gnss_system_mask_to_string 33 ≡ codes "GPS,BDS"
unfolding gnss_system_mask_to_string
names-run = refl

-- Documents of the reader: maps of words and a sequence. `null` is `YAML::Node()`, and `short` a map
-- without the optional keys.
data Node : Type 0 where
  root short systems null : Node
  word : Bytes → Node

abbrev serial_pairs : List (Node × Node)
serial_pairs =
    (word (codes "enable_serial"), word (codes "On"))
    ∷ (word (codes "serial_port"), word (codes "/dev/ttyACM0"))
    ∷ (word (codes "serial_baud_rate"), word (codes "921600"))
    ∷ []

abbrev pairs_of : Node → List (Node × Node)
pairs_of root =
    serial_pairs
    ++ ((word (codes "enable_rtcm_tcp_loopback"), word (codes "off"))
        ∷ (word (codes "enable_ntrip_rtcm"), word (codes "on"))
        ∷ (word (codes "ntrip_server"), word (codes "caster"))
        ∷ (word (codes "ntrip_port"), word (codes "2101"))
        ∷ (word (codes "ntrip_mountpoint"), word (codes "RTCM3"))
        ∷ (word (codes "ntrip_username"), word (codes "user"))
        ∷ (word (codes "ntrip_password"), word (codes "secret"))
        ∷ (word (codes "raw_observation_systems"), systems)
        ∷ (word (codes "ephemeris_systems"), word (codes "BeiDou"))
        ∷ (word (codes "enable_config_bring"), word (codes "no"))
        ∷ [])
pairs_of short = serial_pairs
pairs_of systems = []
pairs_of null = []
pairs_of (word w) = []

abbrev items_of : Node → List Node
items_of root = []
items_of short = []
items_of null = []
items_of systems = word (codes "GPS") ∷ word (codes "bds") ∷ []
items_of (word w) = []

abbrev kind_of : Node → Kind
kind_of root = mapping
kind_of short = mapping
kind_of null = other
kind_of systems = sequence
kind_of (word w) = scalar

abbrev word_of : Node → Bytes
word_of root = []
word_of short = []
word_of null = []
word_of systems = []
word_of (word w) = w

abbrev string_of : Node → Option Bytes
string_of root = none
string_of short = none
string_of null = none
string_of systems = none
string_of (word w) = some w

abbrev document : Yaml Node
document = record {
  empty = null;
  is_defined = λ n. true;
  kind = kind_of;
  pairs = pairs_of;
  items = items_of;
  text = word_of;
  as_string = string_of;
  as_long = λ n. some (pos 921600);
  as_uint64 = λ n. some 2101;
}

abbrev no_files : Files Node
no_files = record {
  at_home = none;
  is_relative = λ p. false;
  join = λ a b. a ++ b;
  lexically_normal = λ p. p;
  is_present = λ p. false;
  extension = λ p. [];
  read = λ p. none;
  load_yaml = λ p. none;
}

abbrev loaded : UbloxDriverParams
loaded = record {
  enable_serial = true;
  serial_port = codes "/dev/ttyACM0";
  serial_baud_rate = pos 921600;
  raw_observation_system_mask = 33;
  ephemeris_system_mask = 32;
  enable_rtcm_tcp_loopback = false;
  rtcm_tcp_port = 0;
  enable_ntrip_rtcm = true;
  ntrip_server = codes "caster";
  ntrip_port = 2101;
  ntrip_mountpoint = codes "RTCM3";
  ntrip_username = codes "user";
  ntrip_password = codes "secret";
  enable_config_bring = false;
  receiver_config_path = [];
  receiver_configs = [];
}

loaded-run : load_ublox_driver_params document no_files root [] [] ≡ some loaded
unfolding load_ublox_driver_params read_bool read_required read_optional find_first_node find_in
    read_bool_node parse_bool_scalar trim trim_left trim_right to_lower_char bytes_eq
    parse_gnss_system_mask parse_supported_gnss_system_name systems_of
loaded-run = refl

-- A key that may be missing does not take its default: the null node of a missing key is defined.
missing-run : load_ublox_driver_params document no_files short [] [] ≡ none
unfolding load_ublox_driver_params read_bool read_required read_optional find_first_node find_in
    read_bool_node parse_bool_scalar trim trim_left trim_right to_lower_char bytes_eq
missing-run = refl

load_ublox_driver_params-checked_example :
    (true ≡ true) × ((false && true) ≡ false) × IsSupported 33 × IsSupported 32
load_ublox_driver_params-checked_example =
    load_ublox_driver_params-checked document no_files root [] [] loaded loaded-run

-- CFG-RATE-MEAS and a bit
abbrev items : List (ℕ × List ℕ)
items = (0x30210001, 100 ∷ 0 ∷ []) ∷ (0x10310001, 1 ∷ []) ∷ []

good_items : IsItem (0x30210001, 100 ∷ 0 ∷ []) × (IsItem (0x10310001, 1 ∷ []) × Unit {0})
good_items = ((omega arith, omega arith, refl), ((omega arith, omega arith, refl), tt))

records_of_bytes-build_config_msg_example :
    (records_of_bytes (line_bytes items) ≡ some (map item_record items))
    × (build_config_msg (map item_record items)
        ≡ built (frame 0x06 0x8A (valset (item_bytes items))) (length (item_bytes items) + 12))
records_of_bytes-build_config_msg_example =
    records_of_bytes-build_config_msg items good_items (omega arith)

records_of_line-valset_line_example :
    records_of_line (valset_line (line_bytes items)) ≡ some (map item_record items)
records_of_line-valset_line_example =
    records_of_line-valset_line items good_items
      (
        omega arith,
        (
          omega arith,
          (
            omega arith,
            (
              omega arith,
              (
                omega arith,
                (
                  omega arith,
                  (omega arith, (omega arith, (omega arith, (omega arith, (omega arith, tt))))),
                ),
              ),
            ),
          ),
        ),
      )
      (omega arith)

load_ublox_driver_params-needs_keys_example :
    All (λ key. find_first_node document root (key ∷ []) ≢ some null) keys_with_default
load_ublox_driver_params-needs_keys_example =
    load_ublox_driver_params-needs_keys document refl refl no_files root [] [] loaded loaded-run
