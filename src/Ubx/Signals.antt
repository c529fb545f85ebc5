-- ===== src/Ubx/Signals.antt =====
-- Systems and signals of the receiver: `ubx_sys`, `ubx_sig` and `sig_idx` of
-- ublox_driver/src/gnss_message_parser/ublox_message_processor_helper.cpp, over the constants of
-- gnss_comm/include/gnss_comm/gnss_constant.hpp.
pub mod Index
use gnss_parser.Prelude.{ℕ, ◌+◌, ◌==◌, if◌then◌else◌}
use gnss_parser.Gnss.Satellites.{sys_none, sys_gps, sys_sbs, sys_glo, sys_gal, sys_qzs, sys_bds}

abbrev pub n_freq : ℕ
n_freq = 3

abbrev pub code_none : ℕ
code_none = 0

abbrev pub code_l1c : ℕ
code_l1c = 1

abbrev pub code_l1b : ℕ
code_l1b = 11

abbrev pub code_l2c : ℕ
code_l2c = 14

abbrev pub code_l2l : ℕ
code_l2l = 17

abbrev pub code_l2m : ℕ
code_l2m = 22

abbrev pub code_l7i : ℕ
code_l7i = 27

abbrev pub code_l7q : ℕ
code_l7q = 28

abbrev pub code_l1i : ℕ
code_l1i = 47

unfoldable pub ubx_sys : ℕ → ℕ
ubx_sys gnssid =
    if gnssid == 0
    then sys_gps
    else if gnssid == 1
    then sys_sbs
    else if gnssid == 2
    then sys_gal
    else if gnssid == 3
    then sys_bds
    else if gnssid == 5
    then sys_qzs
    else if gnssid == 6
    then sys_glo
    else sys_none

unfoldable pub ubx_sig : ℕ → ℕ → ℕ
ubx_sig sys sigid =
    if sys == sys_gps
    then (if sigid == 0
        then code_l1c
        else if sigid == 3
        then code_l2l
        else if sigid == 4
        then code_l2m
        else code_none)
    else if sys == sys_glo
    then (if sigid == 0 then code_l1c else if sigid == 2 then code_l2c else code_none)
    else if sys == sys_gal
    then (if sigid == 0
        then code_l1c
        else if sigid == 1
        then code_l1b
        else if sigid == 5
        then code_l7i
        else if sigid == 6
        then code_l7q
        else code_none)
    else if sys == sys_qzs
    then (if sigid == 0 then code_l1c else if sigid == 5 then code_l2l else code_none)
    else if sys == sys_bds
    then (if sigid == 0
        then code_l1i
        else if sigid == 1
        then code_l1i
        else if sigid == 2
        then code_l7i
        else if sigid == 3
        then code_l7i
        else code_none)
    else if sys == sys_sbs
    then code_l1c
    else code_none

unfoldable pub sig_idx : ℕ → ℕ → ℕ
sig_idx sys code =
    if sys == sys_gps
    then (if code == code_l1c
        then 1
        else if code == code_l2l
        then 2
        else if code == code_l2m
        then n_freq + 1
        else 0)
    else if sys == sys_glo
    then (if code == code_l1c then 1 else if code == code_l2c then 2 else 0)
    else if sys == sys_gal
    then (if code == code_l1c
        then 1
        else if code == code_l1b
        then n_freq + 1
        else if code == code_l7i
        then 2
        else if code == code_l7q
        then 2
        else 0)
    else if sys == sys_qzs
    then (if code == code_l1c then 1 else if code == code_l2l then 2 else 0)
    else if sys == sys_bds
    then (if code == code_l1i then 1 else if code == code_l7i then 2 else 0)
    else if sys == sys_sbs
    then (if code == code_l1c then 1 else 0)
    else 0
