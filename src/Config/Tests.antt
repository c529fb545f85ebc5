-- ===== src/Config/Tests.antt =====
-- `build_config_msg` at concrete records.
use gnss_parser.Prelude.{ℕ, true, false, List, [], ◌∷◌, ◌≡◌, refl}
use gnss_parser.Prelude.Text.{codes, bytes_eq, starts_with}
use gnss_parser.Prelude.Map.{lookup}
use gnss_parser.Config.{
  RcvConfigRecord, append_records, append_record, appended, stoull, number, digits, code_of,
  cut_last,
}

-- The rate of measurements, the PVT message on USB, and a raw record.
abbrev records : List RcvConfigRecord
records =
    record {
      key_name = codes "CFG-RATE-MEAS";
      value_text = codes " 100";
      key_id = 0;
      value_bytes = [];
      use_raw_key_value = false;
    }
    ∷ record {
      key_name = codes "CFG-MSGOUT-UBX_NAV_PVT_USB";
      value_text = codes "1";
      key_id = 0;
      value_bytes = [];
      use_raw_key_value = false;
    }
    ∷ record {
      key_name = [];
      value_text = [];
      key_id = 0x10310001;
      value_bytes = 1 ∷ [];
      use_raw_key_value = true;
    }
    ∷ []

abbrev bytes : List ℕ
bytes =
    0x01 ∷ 0x00 ∷ 0x21 ∷ 0x30 ∷ 100 ∷ 0 ∷ 0x09 ∷ 0x00 ∷ 0x91 ∷ 0x20 ∷ 1 ∷ 0x01 ∷ 0x00 ∷ 0x31 ∷ 0x10
    ∷ 1 ∷ []

records-run : append_records records ≡ appended bytes
unfolding append_records append_record code_of cut_last stoull number digits lookup bytes_eq
    starts_with
records-run = refl
