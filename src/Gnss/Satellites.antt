-- ===== src/Gnss/Satellites.antt =====
-- Satellite numbering: `sat_no` and `satsys` of gnss_comm/src/gnss_utility.cpp, over the constants
-- of gnss_comm/include/gnss_comm/gnss_constant.hpp.
pub mod Numbering
pub mod Names
use gnss_parser.Prelude.{ℕ, ◌+◌, ◌-◌, ◌||◌, ltb, leb, ◌==◌, if◌then◌else◌}

-- SYS_NONE .. SYS_BDS
abbrev pub sys_none : ℕ
sys_none = 0x00

abbrev pub sys_gps : ℕ
sys_gps = 0x01

abbrev pub sys_sbs : ℕ
sys_sbs = 0x02

abbrev pub sys_glo : ℕ
sys_glo = 0x04

abbrev pub sys_gal : ℕ
sys_gal = 0x08

abbrev pub sys_qzs : ℕ
sys_qzs = 0x10

abbrev pub sys_bds : ℕ
sys_bds = 0x20

-- MAX_PRN_* ; every MIN_PRN_* is 1, so that these are also the N_SAT_*.
abbrev pub min_prn : ℕ
min_prn = 1

abbrev pub n_sat_gps : ℕ
n_sat_gps = 32

abbrev pub n_sat_glo : ℕ
n_sat_glo = 27

abbrev pub n_sat_gal : ℕ
n_sat_gal = 38

abbrev pub n_sat_bds : ℕ
n_sat_bds = 63

abbrev pub max_sat : ℕ
max_sat = n_sat_gps + n_sat_glo + n_sat_gal + n_sat_bds

unfoldable pub sat_no : ℕ → ℕ → ℕ
sat_no sys prn =
    if prn == 0
    then 0
    else if sys == sys_gps
    then (if ltb prn min_prn || ltb n_sat_gps prn then 0 else prn - min_prn + 1)
    else if sys == sys_glo
    then (if ltb prn min_prn || ltb n_sat_glo prn then 0 else n_sat_gps + prn - min_prn + 1)
    else if sys == sys_gal
    then (if ltb prn min_prn || ltb n_sat_gal prn
        then 0
        else n_sat_gps + n_sat_glo + prn - min_prn + 1)
    else if sys == sys_bds
    then (if ltb prn min_prn || ltb n_sat_bds prn
        then 0
        else n_sat_gps + n_sat_glo + n_sat_gal + prn - min_prn + 1)
    else 0

-- The system and the PRN that `satsys` returns and stores.
pub record SatSys : Type 0 where
  pub sys : ℕ
  pub prn : ℕ

-- The chain of `else if`s after the range test, each of which subtracts from `sat`.
unfoldable pub satsys_bds : ℕ → SatSys
satsys_bds sat =
    let rest = sat - n_sat_gal in
    if leb rest n_sat_bds
    then record { sys = sys_bds; prn = rest + (min_prn - 1) }
    else record { sys = sys_none; prn = 0 }

unfoldable pub satsys_gal : ℕ → SatSys
unfolding satsys_bds
satsys_gal sat =
    let rest = sat - n_sat_glo in
    if leb rest n_sat_gal
    then record { sys = sys_gal; prn = rest + (min_prn - 1) }
    else satsys_bds rest

unfoldable pub satsys_glo : ℕ → SatSys
unfolding satsys_gal
satsys_glo sat =
    let rest = sat - n_sat_gps in
    if leb rest n_sat_glo
    then record { sys = sys_glo; prn = rest + (min_prn - 1) }
    else satsys_gal rest

unfoldable pub satsys : ℕ → SatSys
unfolding satsys_glo
satsys sat =
    if leb sat 0 || ltb max_sat sat
    then record { sys = sys_none; prn = 0 }
    else if leb sat n_sat_gps
    then record { sys = sys_gps; prn = sat + (min_prn - 1) }
    else satsys_glo sat
