-- ===== src/Ubx/Tests.antt =====
-- Runs of the message processor's functions, and its theorems at concrete inputs.
use gnss_parser.Prelude.{ℕ, ◌%◌, ◌^◌, true, false, List, [], ◌∷◌, ◌≡◌, ◌↔◌, refl, arith}
use gnss_parser.Ubx.Checksum.{check_checksum, sum_bytes, add_byte}
use gnss_parser.Ubx.Checksum.Split.{closed}
use gnss_parser.Ubx.Checksum.Errors.{check_checksum-one_byte}
use gnss_parser.Ubx.Frame.{verify_msg, check_ack, acked}
use gnss_parser.Ubx.Frame.Spec.{IsFrame}
use gnss_parser.Ubx.Frame.Accept.{verify_msg_iff}
use gnss_parser.Ubx.Bits.{getbitu, setbitu, get_bits, set_bits, put_bit, bit_at}
use gnss_parser.Prelude.Int.{negsuc, word}
use gnss_parser.Ubx.Bits.Signed.{getbits}
use gnss_parser.Ubx.Bits.Signed.Value.{getbits-setbitu}
use gnss_parser.Ubx.Bits.Write.{IsBytes}
use gnss_parser.Ubx.Bits.Fields.{getbitu-setbitu}

-- UBX-ACK-ACK for UBX-CFG-VALSET
abbrev ack : List ℕ
ack = 0xB5 ∷ 0x62 ∷ 0x05 ∷ 0x01 ∷ 2 ∷ 0 ∷ 0x06 ∷ 0x8A ∷ 0x98 ∷ 0xC1 ∷ []

verify-ack : verify_msg ack 10 ≡ true
unfolding verify_msg check_checksum sum_bytes add_byte
verify-ack = refl

check_ack-ack : check_ack ack 10 ≡ acked
unfolding check_ack verify_msg check_checksum sum_bytes add_byte
check_ack-ack = refl

verify_msg_iff_example : (verify_msg ack 10 ≡ true) ↔ IsFrame ack
verify_msg_iff_example = verify_msg_iff ack (omega arith)

abbrev ack_body : List ℕ
ack_body = 0x05 ∷ 0x01 ∷ 2 ∷ 0 ∷ 0x06 ∷ 0x8A ∷ []

closed_ack : check_checksum (closed 0xB5 0x62 ack_body 0x98 0xC1) 10 ≡ true
unfolding check_checksum sum_bytes add_byte
closed_ack = refl

-- the class id turned from 1 into 0x41
check_checksum-one_byte_example :
    check_checksum (0xB5 ∷ 0x62 ∷ 0x05 ∷ 0x41 ∷ 2 ∷ 0 ∷ 0x06 ∷ 0x8A ∷ 0x98 ∷ 0xC1 ∷ []) 10 ≡ false
check_checksum-one_byte_example =
    check_checksum-one_byte 0xB5 0x62 0x98 0xC1 10 (0x05 ∷ []) (2 ∷ 0 ∷ 0x06 ∷ 0x8A ∷ []) 0x01 0x41
      (omega arith) (omega arith) refl (omega arith) closed_ack

abbrev blank : List ℕ
blank = 0 ∷ 0xFF ∷ 0 ∷ 0xFF ∷ []

blank-IsBytes : IsBytes blank
blank-IsBytes i = grind arith

getbitu-setbitu_run : getbitu (setbitu blank 5 10 0x2A5) 5 10 ≡ 0x2A5
unfolding getbitu setbitu get_bits set_bits put_bit bit_at
getbitu-setbitu_run = refl

getbitu-setbitu_example : getbitu (setbitu blank 5 10 0x6A5) 5 10 ≡ 0x6A5 % 2 ^ 10
getbitu-setbitu_example =
    getbitu-setbitu blank blank-IsBytes 5 10 0x6A5 (omega arith) (omega arith) (omega arith)

getbits-setbitu_example : getbits (setbitu blank 5 10 (word 32 (negsuc 4))) 5 10 ≡ negsuc 4
getbits-setbitu_example =
    getbits-setbitu blank 5 9 (negsuc 4) blank-IsBytes (omega arith) (omega arith) (omega arith)
