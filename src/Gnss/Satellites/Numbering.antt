-- ===== src/Gnss/Satellites/Numbering.antt =====
-- `sat_no` numbers the satellites of the four systems one to one by 1 .. MAX_SAT, and `satsys` is
-- its inverse.
use gnss_parser.Prelude.{ℕ, ◌+◌, ◌≤◌, ◌≡◌, ◌≢◌, ◌⊎◌, ◌↔◌, arith}
use gnss_parser.Gnss.Satellites.{sat_no, satsys, max_sat, sys_none}

-- Every satellite number is at most MAX_SAT, so that `sat - 1` indexes a table of MAX_SAT rows.
pub sat_no-le : (sys prn : ℕ) → sat_no sys prn ≤ max_sat
unfolding sat_no
sat_no-le sys prn = ground arith

-- `satsys` gives back the system and the PRN of every number that `sat_no` assigns.
pub satsys-sat_no :
    (sys prn : ℕ) → sat_no sys prn ≢ 0 → satsys (sat_no sys prn) ≡ record { sys = sys; prn = prn }
unfolding sat_no satsys
satsys-sat_no sys prn h = ground arith

-- `sat_no` gives back every number from 1 to MAX_SAT from what `satsys` says of it.
sat_no-satsys : (sat : ℕ) → 1 ≤ sat → sat ≤ max_sat → sat_no (satsys sat).sys (satsys sat).prn ≡ sat
unfolding sat_no satsys
sat_no-satsys sat h k = ground arith

-- `satsys` says SYS_NONE exactly outside 1 .. MAX_SAT.
satsys_none_iff : (sat : ℕ) → ((satsys sat).sys ≡ sys_none) ↔ ((sat ≡ 0) ⊎ (max_sat + 1 ≤ sat))
unfolding satsys
satsys_none_iff sat = ground arith
