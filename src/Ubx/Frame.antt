-- ===== src/Ubx/Frame.antt =====
-- Framing of UBX messages: `verifyMsg` of
-- ublox_driver/src/gnss_message_parser/ublox_message_processor.cpp and `check_ack` of
-- ublox_message_processor_helper.cpp beside it. A message is the list of its bytes, and `len` its
-- length, as the serial reader passes them.
pub mod Spec
pub mod Sums
pub mod Accept
use gnss_parser.Prelude.{
  ℕ, ◌+◌, ◌*◌, ◌%◌, ◌<◌, Bool, true, false, not, ◌&&◌, ◌||◌, List, [], ◌∷◌, ◌++◌, ltb, ◌==◌,
  if◌then◌else◌, length, byte_at,
}
use gnss_parser.Ubx.Checksum.{check_checksum}

-- UBX_SYNC_1, UBX_SYNC_2, kUbxMsgHeaderLen and the message ids.
abbrev pub sync_1 : ℕ
sync_1 = 0xB5

abbrev pub sync_2 : ℕ
sync_2 = 0x62

abbrev pub msg_header_len : ℕ
msg_header_len = 6

abbrev pub ack_ack_id : ℕ
ack_ack_id = 0x0501

abbrev pub ack_nak_id : ℕ
ack_nak_id = 0x0500

-- `*reinterpret_cast<const uint16_t *>(data + i)` on a little-endian host
abbrev pub u16_at : List ℕ → ℕ → ℕ
u16_at data' i = byte_at data' i + 256 * byte_at data' (i + 1)

-- `(data[2] << 8) | data[3]`
abbrev pub msg_type : List ℕ → ℕ
msg_type data' = byte_at data' 2 * 256 + byte_at data' 3

unfoldable pub verify_msg : List ℕ → ℕ → Bool
verify_msg data' len =
    if ltb len 8
    then false
    else if not (byte_at data' 0 == sync_1) || not (byte_at data' 1 == sync_2)
    then false
    else if not (len == u16_at data' 4 + msg_header_len + 2)
    then false
    else if not (check_checksum data' len)
    then false
    else true

-- The result of `check_ack`: 1, -1 or 0.
pub data Ack : Type 0 where
  acked nacked other : Ack

unfoldable pub check_ack : List ℕ → ℕ → Ack
check_ack data' len =
    if not (verify_msg data' len)
    then other
    else if msg_type data' == ack_ack_id
    then acked
    else if msg_type data' == ack_nak_id
    then nacked
    else other
