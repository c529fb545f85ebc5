-- ===== src/Config/Items.antt =====
-- `rcv_config_item2code` of `build_config_msg` in
-- ublox_driver/src/gnss_message_parser/ublox_message_processor_helper.cpp: the key of each item and
-- the number of its type in `rcv_config_type2code`.
use gnss_parser.Prelude.{ℕ, [], ◌∷◌}
use gnss_parser.Prelude.Text.{codes}
use gnss_parser.Prelude.Map.{Map}

abbrev u1 : ℕ
u1 = 1

abbrev u2 : ℕ
u2 = 2

abbrev u4 : ℕ
u4 = 3

abbrev e1 : ℕ
e1 = 5

abbrev l : ℕ
l = 12

abbrev pub rcv_config_item2code : Map (ℕ × ℕ)
rcv_config_item2code =
    (codes "CFG-MSGOUT-UBX_NAV_HPPOSECEF", (0x2091002f, u1))
    ∷ (codes "CFG-MSGOUT-UBX_NAV_HPPOSLLH", (0x20910034, u1))
    ∷ (codes "CFG-MSGOUT-UBX_NAV_POSECEF", (0x20910025, u1))
    ∷ (codes "CFG-MSGOUT-UBX_NAV_POSLLH", (0x2091002A, u1))
    ∷ (codes "CFG-MSGOUT-UBX_NAV_PVT", (0x20910007, u1))
    ∷ (codes "CFG-MSGOUT-UBX_NAV_SAT", (0x20910016, u1))
    ∷ (codes "CFG-MSGOUT-UBX_NAV_STATUS", (0x2091001B, u1))
    ∷ (codes "CFG-MSGOUT-UBX_NAV_VELECEF", (0x2091003E, u1))
    ∷ (codes "CFG-MSGOUT-UBX_NAV_VELNED", (0x20910043, u1))
    ∷ (codes "CFG-MSGOUT-UBX_RXM_RAWX", (0x209102A5, u1))
    ∷ (codes "CFG-MSGOUT-UBX_RXM_SFRBX", (0x20910232, u1))
    ∷ (codes "CFG-NAVSPG-DYNMODEL", (0x20110021, e1))
    ∷ (codes "CFG-RATE-MEAS", (0x30210001, u2))
    ∷ (codes "CFG-RATE-NAV", (0x30210002, u2))
    ∷ (codes "CFG-RATE-TIMEREF", (0x20210003, e1))
    ∷ (codes "CFG-SIGNAL-GPS_ENA", (0x1031001F, l))
    ∷ (codes "CFG-SIGNAL-GPS_L1CA_ENA", (0x10310001, l))
    ∷ (codes "CFG-SIGNAL-GPS_L2CA_ENA", (0x10310003, l))
    ∷ (codes "CFG-SIGNAL-GAL_ENA", (0x10310021, l))
    ∷ (codes "CFG-SIGNAL-GAL_E1_ENA", (0x10310007, l))
    ∷ (codes "CFG-SIGNAL-GAL_E5B_ENA", (0x1031000A, l))
    ∷ (codes "CFG-SIGNAL-BDS_ENA", (0x10310022, l))
    ∷ (codes "CFG-SIGNAL-BDS_B1_ENA", (0x1031000D, l))
    ∷ (codes "CFG-SIGNAL-BDS_B2_ENA", (0x1031000E, l))
    ∷ (codes "CFG-SIGNAL-QZSS_ENA", (0x10310024, l))
    ∷ (codes "CFG-SIGNAL-QZSS_L1CA_ENA", (0x10310012, l))
    ∷ (codes "CFG-SIGNAL-QZSS_L2C_ENA", (0x10310015, l))
    ∷ (codes "CFG-SIGNAL-GLO_ENA", (0x10310025, l))
    ∷ (codes "CFG-SIGNAL-GLO_L1_ENA", (0x10310018, l))
    ∷ (codes "CFG-SIGNAL-GLO_L2_ENA", (0x1031001A, l))
    ∷ (codes "CFG-UART1-BAUDRATE", (0x40520001, u4))
    ∷ (codes "CFG-UART1-STOPBITS", (0x20520002, e1))
    ∷ (codes "CFG-UART1-DATABITS", (0x20520003, e1))
    ∷ (codes "CFG-UART1-PARITY", (0x20520004, e1))
    ∷ (codes "CFG-UART1-ENABLED", (0x10520005, l))
    ∷ (codes "CFG-UART1INPROT-UBX", (0x10730001, l))
    ∷ (codes "CFG-UART1INPROT-NMEA", (0x10730002, l))
    ∷ (codes "CFG-UART1INPROT-RTCM3X", (0x10730004, l))
    ∷ (codes "CFG-UART1OUTPROT-UBX", (0x10740001, l))
    ∷ (codes "CFG-UART1OUTPROT-NMEA", (0x10740002, l))
    ∷ (codes "CFG-UART1OUTPROT-RTCM3X", (0x10740004, l))
    ∷ (codes "CFG-UART2-BAUDRATE", (0x40530001, u4))
    ∷ (codes "CFG-UART2-STOPBITS", (0x20530002, e1))
    ∷ (codes "CFG-UART2-DATABITS", (0x20530003, e1))
    ∷ (codes "CFG-UART2-PARITY", (0x20530004, e1))
    ∷ (codes "CFG-UART2-ENABLED", (0x10530005, l))
    ∷ (codes "CFG-UART2INPROT-UBX", (0x10750001, l))
    ∷ (codes "CFG-UART2INPROT-NMEA", (0x10750002, l))
    ∷ (codes "CFG-UART2INPROT-RTCM3X", (0x10750004, l))
    ∷ (codes "CFG-UART2OUTPROT-UBX", (0x10760001, l))
    ∷ (codes "CFG-UART2OUTPROT-NMEA", (0x10760002, l))
    ∷ (codes "CFG-UART2OUTPROT-RTCM3X", (0x10760004, l))
    ∷ (codes "CFG-USB-ENABLED", (0x10650001, l))
    ∷ (codes "CFG-USBINPROT-UBX", (0x10770001, l))
    ∷ (codes "CFG-USBINPROT-NMEA", (0x10770002, l))
    ∷ (codes "CFG-USBINPROT-RTCM3X", (0x10770004, l))
    ∷ (codes "CFG-USBOUTPROT-UBX", (0x10780001, l))
    ∷ (codes "CFG-USBOUTPROT-NMEA", (0x10780002, l))
    ∷ (codes "CFG-USBOUTPROT-RTCM3X", (0x10780004, l))
    ∷ (codes "CFG-TP-PULSE_DEF", (0x20050023, e1))
    ∷ []
