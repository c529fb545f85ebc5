-- ===== src/Processor/Beidou.antt =====
-- The flags of BeiDou D1 subframes: a subframe 4 or 5 sets a flag that the test for the flags of 1
-- to 3 never allows, and that only a decoded ephemeris would clear.
pub mod Stuck
use gnss_parser.Prelude.{
  ℕ, ◌+◌, ◌-◌, ◌*◌, ◌/◌, ◌%◌, ◌^◌, ◌≤◌, ◌<◌, ◌&&◌, true, false, List, [], ◌∷◌, ◌++◌, ◌≡◌, ◌≢◌, refl,
  ap, subst, ◌∙◌, ◌⊎◌, inl, inr, Bool, Bool-cases, ==_iff, arith, Option, none, some, ◌==◌, leb,
  ltb, ◌||◌, length, get_or, get_or-set_self, byte_at, sym, bit_or, all_below, all_below_sound, All,
}
use gnss_parser.Prelude.Int.{pos}
use gnss_parser.Gnss.Satellites.{max_sat, sat_no, satsys, sys_bds, SatSys}
use gnss_parser.Gnss.Satellites.Numbering.{satsys-sat_no, sat_no-le}
use gnss_parser.Ubx.Signals.{ubx_sys}
use gnss_parser.Ephem.{Ephem, Quantity, blank}
use gnss_parser.Processor.{Processor, row}
use gnss_parser.Processor.Invariant.{subject, IsWell, parse_subframe-others}
use gnss_parser.Processor.Subframes.{result_of, Parsed, null_write, parsed, parse_subframe}
use gnss_parser.Processor.Publish.Faults.{gps-sat, bds-sat, gal-sat}
use gnss_parser.Processor.Subframes.Gps.{decode_gps_subframe}
use gnss_parser.Processor.Subframes.Gal.{decode_gal_subframe}
use gnss_parser.Processor.Subframes.Bds.{bds_d1_subframe, decode_bds_subframe, d1_flags, bds_word}

abbrev never_less : ℕ → ℕ → Bool
never_less k x = leb x (bit_or x (2 ^ k)) && leb (2 ^ k) (bit_or x (2 ^ k))

table : all_below 8 (λ k. all_below 256 (never_less k)) ≡ true
unfolding all_below
table = refl

-- A flag that is joined to a byte makes it no less, and is there.
bit_or-le : (k x : ℕ) → k < 8 → x < 256 → (x ≤ bit_or x (2 ^ k)) × (2 ^ k ≤ bit_or x (2 ^ k))
bit_or-le k x h b =
    let t =
      all_below_sound 256 (never_less k) x
        (all_below_sound 8 (λ j. all_below 256 (never_less j)) k table h) b in
    ground arith

-- The flags of a satellite.
abbrev pub flags_of : Processor → ℕ → ℕ
flags_of p sat = get_or p.flags (sat - 1) 0

powers : all_below 6 (λ id. ltb id 4 || leb 8 (2 ^ (id - 1))) ≡ true
unfolding all_below
powers = refl

power : (id : ℕ) → 4 ≤ id → id ≤ 5 → 8 ≤ 2 ^ (id - 1)
power id h l =
    let t = all_below_sound 6 (λ n. ltb n 4 || leb 8 (2 ^ (n - 1))) id powers (omega arith) in
    ground arith

-- A subframe after a flag beyond the first three, or with one.
waits :
    (p : Processor) (d : List ℕ) (e : Ephem) (id : ℕ)
    → e.sat - 1 < length p.flags
    → flags_of p e.sat < 256
    → 1 ≤ id
    → id ≤ 5
    → (8 ≤ flags_of p e.sat) ⊎ (4 ≤ id)
    → (8 ≤ flags_of (bds_d1_subframe p d e id).state e.sat) × ((bds_d1_subframe p d e id).ephem ≡ e)
unfolding bds_d1_subframe
waits p d e id l f i j w =
    let flags : ℕ = d1_flags p e.sat id in
    let b = bit_or-le (id - 1) (flags_of p e.sat) (omega arith) f in
    let h : 8 ≤ flags = elim w [ inl v ↦ omega arith | inr v ↦ omega (arith, power id v j) ] in
    let other : (flags == 7) ≡ false = ground arith in
    rw other (rw (get_or-set_self p.flags (e.sat - 1) flags 0 l) h, refl)

-- A satellite whose subframes are of D1.
abbrev pub IsD1 : ℕ → Type 0
IsD1 sat = ((satsys sat).sys ≡ sys_bds) × (5 < (satsys sat).prn) × ((satsys sat).prn < 59)

-- The flags of a satellite that no ephemeris of it can come from again, and an ephemeris pointer
-- with none of it to publish.
abbrev pub IsStuck : Processor → ℕ → Type 0
IsStuck p sat = 8 ≤ flags_of p sat

abbrev pub IsBlank : ℕ → Option Ephem → Type 0
IsBlank sat none = Unit
IsBlank sat (some e) = e.sat ≡ sat → e.ttr.time ≡ pos 0

abbrev pub StuckAfter : ℕ → Parsed → Type 0
StuckAfter sat null_write = Unit
StuckAfter sat (parsed p e iono) = IsStuck p sat × IsBlank sat e

decode_bds-IsStuck :
    (p : Processor) (d : List ℕ) (sat : ℕ)
    → sat - 1 < length p.flags
    → flags_of p sat < 256
    → IsD1 sat
    → IsStuck p sat
    → IsStuck (decode_bds_subframe p d (blank sat)).state sat
      × ((decode_bds_subframe p d (blank sat)).ephem ≡ blank sat)
unfolding decode_bds_subframe
decode_bds-IsStuck p d sat l f b stuck =
    let id : ℕ = bds_word d 0 / 2 ^ 12 % 8 in
    let next = λ (i : 1 ≤ id) (j : id ≤ 5). waits p d (blank sat) id l f i j (inl stuck) in
    let range : ltb 5 (satsys sat).prn && ltb (satsys sat).prn 59 ≡ true = ground arith in
    elim (Bool-cases (ltb (length d) 56)) [
      | inl e ↦ rw e (stuck, refl)
      | inr e ↦ elim (Bool-cases (ltb id 1 || ltb 5 id)) [
        | inl c ↦ rw (e, c) (stuck, refl)
        | inr c ↦ rw (e, c, range) (next (ground arith) (ground arith))
      ]
    ]

parse-bds :
    (p : Processor) (d : List ℕ)
    → subject d ≢ 0
    → ubx_sys (byte_at d 6) ≡ sys_bds
    → parse_subframe p d ≡ result_of (decode_bds_subframe p d (blank (subject d)))
unfolding parse_subframe
parse-bds p d z e = ground arith

-- A subframe of the satellite itself, where it is stuck.
pub own_subframe :
    (p : Processor) (d : List ℕ)
    → IsWell p
    → subject d ≢ 0
    → IsD1 (subject d)
    → IsStuck p (subject d)
    → StuckAfter (subject d) (parse_subframe p d)
own_subframe p d w z b stuck =
    let sat = subject d in
    let same = satsys-sat_no (ubx_sys (byte_at d 6)) (byte_at d 7) z in
    let sys : ubx_sys (byte_at d 6) ≡ sys_bds = sym (ap SatSys.sys same) ∙ b.0 in
    let le = sat_no-le (ubx_sys (byte_at d 6)) (byte_at d 7) in
    let own =
      decode_bds-IsStuck p d sat (omega (arith, w.flag_count)) (w.flags (sat - 1) (omega arith)) b
        stuck in
    rw (parse-bds p d z sys) (own.0, λ q. ap (λ e. e.ttr.time) own.1)

-- A subframe 4 or 5 of D1.
abbrev pub IsLate : List ℕ → Type 0
IsLate d = (56 ≤ length d) × (4 ≤ bds_word d 0 / 2 ^ 12 % 8) × (bds_word d 0 / 2 ^ 12 % 8 ≤ 5)

-- After it the satellite is stuck, in any state.
pub late_subframe :
    (p : Processor) (d : List ℕ)
    → IsWell p
    → subject d ≢ 0
    → IsD1 (subject d)
    → IsLate d
    → StuckAfter (subject d) (parse_subframe p d)
unfolding decode_bds_subframe
late_subframe p d w z b t =
    let sat = subject d in
    let same = satsys-sat_no (ubx_sys (byte_at d 6)) (byte_at d 7) z in
    let sys : ubx_sys (byte_at d 6) ≡ sys_bds = sym (ap SatSys.sys same) ∙ b.0 in
    let le = sat_no-le (ubx_sys (byte_at d 6)) (byte_at d 7) in
    let id : ℕ = bds_word d 0 / 2 ^ 12 % 8 in
    let own =
      waits p d (blank sat) id (omega (arith, w.flag_count)) (w.flags (sat - 1) (omega arith))
        (omega arith) t.2 (inr t.1) in
    let long : ltb (length d) 56 ≡ false = ground arith in
    let known : (ltb id 1 || ltb 5 id) ≡ false = ground arith in
    let range : ltb 5 (satsys sat).prn && ltb (satsys sat).prn 59 ≡ true = ground arith in
    rw (parse-bds p d z sys, long, known, range) (own.0, λ q. ap (λ e. e.ttr.time) own.1)
