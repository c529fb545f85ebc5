-- ===== src/Config/Framed.antt =====
-- The message that `build_config_msg` makes against the wire format.
use gnss_parser.Prelude.{ℕ, ◌+◌, ◌%◌, ◌^◌, ◌<◌, List, ◌∷◌, ◌≡◌, ap, ap₂, sym, ◌∙◌, arith, length}
use gnss_parser.Ubx.Checksum.Split.{set-closed}
use gnss_parser.Ubx.Frame.Spec.{frame, frame_body}
use gnss_parser.Ubx.Frame.Sums.{frame_lem}
use gnss_parser.Config.{RcvConfigRecord, appended, append_records, built, finish, build_config_msg}

abbrev pub valset : List ℕ → List ℕ
valset records = 0 ∷ 1 ∷ 0 ∷ 0 ∷ records

finish-frame :
    (records : List ℕ)
    → 4 + length records < 2 ^ 16
    → finish (appended records) ≡ built (frame 0x06 0x8A (valset records)) (length records + 12)
unfolding finish
finish-frame records h =
    let fits : (4 + length records) % 65536 ≡ length (valset records) = omega arith in
    let size = 6 + length (valset records) + 2 in
    rw fits (
      ap₂ built
        (set-closed 0xB5 0x62 (frame_body 0x06 0x8A (valset records)) 0 0 size (omega arith)
          ∙ sym (frame_lem 0x06 0x8A (valset records)))
        (omega arith))

-- From records whose bytes together fit a payload, the function makes the frame of UBX-CFG-VALSET
-- with those bytes, and announces its length.
pub build_config_msg-frame :
    (rcv_configs : List RcvConfigRecord) (records : List ℕ)
    → append_records rcv_configs ≡ appended records
    → 4 + length records < 2 ^ 16
    → build_config_msg rcv_configs ≡ built (frame 0x06 0x8A (valset records)) (length records + 12)
unfolding build_config_msg
build_config_msg-frame rcv_configs records e h = ap finish e ∙ finish-frame records h
