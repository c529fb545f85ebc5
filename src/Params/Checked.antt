-- ===== src/Params/Checked.antt =====
-- What `LoadUbloxDriverParams` of ublox_driver/src/params/params.cpp promises of the parameters that
-- it returns.
use gnss_parser.Prelude.{
  ℕ, ◌≡◌, refl, subst, Bool, true, false, not, ◌&&◌, List, [], ◌∷◌, none, some, ◌⊎◌, inl, inr,
  bit_or, arith, ◌==◌, if◌then◌else◌,
}
use gnss_parser.Prelude.Throws.{throw_if, >>=-eq-some, >>=-found}
use gnss_parser.Prelude.Text.{Bytes, codes}
use gnss_parser.Gnss.Satellites.{sys_gps, sys_bds}
use gnss_parser.Params.Load.{
  Yaml, Files, UbloxDriverParams, parse_supported_gnss_system_name, system_of, systems_of, mask_in,
  parse_gnss_system_mask, find_first_node, load_ublox_driver_params, read_bool, read_required,
  loopback_port, ntrip_fields, config_fields, scalar, sequence, is_kind,
}

-- GPS, BDS or both
abbrev pub IsSupported : ℕ → Type 0
IsSupported m = (m ≡ sys_gps) ⊎ (m ≡ sys_bds) ⊎ (m ≡ bit_or sys_gps sys_bds)

throw_if-passed : (b t : Bool) → throw_if b ≡ some t → b ≡ false
throw_if-passed true t e = cc
throw_if-passed false t e = refl

some_injective {ℓ} : {A : Type ℓ} {a b : A} → some a ≡ some b → a ≡ b
some_injective e = cc

name_if :
    (a b : Bool) (m : ℕ)
    → (if a then some sys_gps else if b then some sys_bds else none) ≡ some m
    → IsSupported m
name_if true b m e = inl cc
name_if false true m e = inr (inl cc)
name_if false false m e = cc

name-IsSupported : (s : Bytes) (m : ℕ) → parse_supported_gnss_system_name s ≡ some m → IsSupported m
unfolding parse_supported_gnss_system_name
name-IsSupported s m e = name_if _ _ m e

-- Or with another system, or with none.
or-IsSupported : (x y : ℕ) → IsSupported x → (y ≡ 0) ⊎ IsSupported y → IsSupported (bit_or x y)
or-IsSupported x y (inl ex) (inl ey) = rw (ex, ey) (inl refl)
or-IsSupported x y (inl ex) (inr (inl ey)) = rw (ex, ey) (inl refl)
or-IsSupported x y (inl ex) (inr (inr (inl ey))) = rw (ex, ey) (inr (inr refl))
or-IsSupported x y (inl ex) (inr (inr (inr ey))) = rw (ex, ey) (inr (inr refl))
or-IsSupported x y (inr (inl ex)) (inl ey) = rw (ex, ey) (inr (inl refl))
or-IsSupported x y (inr (inl ex)) (inr (inl ey)) = rw (ex, ey) (inr (inr refl))
or-IsSupported x y (inr (inl ex)) (inr (inr (inl ey))) = rw (ex, ey) (inr (inl refl))
or-IsSupported x y (inr (inl ex)) (inr (inr (inr ey))) = rw (ex, ey) (inr (inr refl))
or-IsSupported x y (inr (inr ex)) (inl ey) = rw (ex, ey) (inr (inr refl))
or-IsSupported x y (inr (inr ex)) (inr (inl ey)) = rw (ex, ey) (inr (inr refl))
or-IsSupported x y (inr (inr ex)) (inr (inr (inl ey))) = rw (ex, ey) (inr (inr refl))
or-IsSupported x y (inr (inr ex)) (inr (inr (inr ey))) = rw (ex, ey) (inr (inr refl))

module _ {Node : Type 0} (yaml : Yaml Node) where
  system_of-IsSupported : (node : Node) (m : ℕ) → system_of yaml node ≡ some m → IsSupported m
  system_of-IsSupported node m e =
      let named = >>=-eq-some (yaml.as_string node) parse_supported_gnss_system_name e in
      name-IsSupported named.0 m named.2

  systems_of-IsSupported :
      (items : List Node) (m : ℕ) → systems_of yaml items ≡ some m → (m ≡ 0) ⊎ IsSupported m
  unfolding systems_of
  systems_of-IsSupported [] m e = inl cc
  systems_of-IsSupported (item ∷ items) m e =
      let one = >>=-eq-some (throw_if (not (is_kind yaml scalar item))) _ e in
      let two = >>=-eq-some (system_of yaml item) _ one.2 in
      let three = >>=-eq-some (systems_of yaml items) _ two.2 in
      let or_eq : bit_or two.0 three.0 ≡ m = cc in
      inr (
        subst IsSupported or_eq (
          or-IsSupported two.0 three.0 (system_of-IsSupported item two.0 two.1)
            (systems_of-IsSupported items three.0 three.1)))

  node_if :
      (a b : Bool) (value : Node) (m : ℕ)
      → (if a then system_of yaml value else if b then systems_of yaml (yaml.items value) else none)
        ≡ some m
      → (m ≡ 0) ⊎ IsSupported m
  node_if true b value m e = inr (system_of-IsSupported value m e)
  node_if false true value m e = systems_of-IsSupported (yaml.items value) m e
  node_if false false value m e = cc

  nonzero :
      (x m : ℕ) (t : Bool)
      → (x ≡ 0) ⊎ IsSupported x
      → throw_if (x == 0) ≡ some t
      → x ≡ m
      → IsSupported m
  nonzero x m t (inl e) ok same =
      let h = throw_if-passed (x == 0) t ok in absurd (ground (arith, h))
  nonzero x m t (inr s) ok same = subst IsSupported same s

  mask_in-IsSupported : (value : Node) (m : ℕ) → mask_in yaml value ≡ some m → IsSupported m
  mask_in-IsSupported value m e =
      let one =
        >>=-eq-some
          (if is_kind yaml scalar value
            then system_of yaml value
            else if is_kind yaml sequence value
            then systems_of yaml (yaml.items value)
            else none)
          _ e in
      let two = >>=-eq-some (throw_if (one.0 == 0)) _ one.2 in
      nonzero one.0 m two.0 (node_if _ _ value one.0 one.1) two.1 cc

  default_if :
      (b : Bool) (default_mask m : ℕ) (value : Node)
      → IsSupported default_mask
      → (if b then some default_mask else mask_in yaml value) ≡ some m
      → IsSupported m
  default_if true default_mask m value good e = subst IsSupported (some_injective e) good
  default_if false default_mask m value good e = mask_in-IsSupported value m e

  parse_gnss_system_mask-IsSupported :
      (root : Node) (key : Bytes) (m : ℕ)
      → parse_gnss_system_mask yaml root key (bit_or sys_gps sys_bds) ≡ some m
      → IsSupported m
  unfolding parse_gnss_system_mask
  parse_gnss_system_mask-IsSupported root key m e =
      let found = >>=-eq-some (find_first_node yaml root (key ∷ [])) _ e in
      default_if (not (yaml.is_defined found.0)) (bit_or sys_gps sys_bds) m found.0 (inr (inr refl))
        found.2

  -- What a load has read on its way.
  pub record Reads (root : Node) (p : UbloxDriverParams) : Type 0 where
    pub serial : p.enable_serial ≡ true
    pub one_input : (p.enable_rtcm_tcp_loopback && p.enable_ntrip_rtcm) ≡ false
    pub loopback_read :
        read_bool yaml root (codes "enable_rtcm_tcp_loopback") false false
        ≡ some p.enable_rtcm_tcp_loopback
    pub ntrip_read :
        read_bool yaml root (codes "enable_ntrip_rtcm") false false ≡ some p.enable_ntrip_rtcm
    pub raw_read :
        parse_gnss_system_mask yaml root (codes "raw_observation_systems") (bit_or sys_gps sys_bds)
        ≡ some p.raw_observation_system_mask
    pub ephem_read :
        parse_gnss_system_mask yaml root (codes "ephemeris_systems") (bit_or sys_gps sys_bds)
        ≡ some p.ephemeris_system_mask
    pub bring_read :
        read_bool yaml root (codes "enable_config_bring") false false ≡ some p.enable_config_bring

  pub load_ublox_driver_params-Reads :
      (files : Files Node) (root : Node) (config_dir receiver_config_override : Bytes)
      (p : UbloxDriverParams)
      → load_ublox_driver_params yaml files root config_dir receiver_config_override ≡ some p
      → Reads root p
  unfolding load_ublox_driver_params
  load_ublox_driver_params-Reads files root config_dir receiver_config_override p e =
      >>=-found (read_bool yaml root (codes "enable_serial") true true) _ e (λ serial e_serial h_0.
        >>=-found (throw_if (not serial)) _ h_0 (λ passed on h_1.
          >>=-found (read_required yaml yaml.as_string root (codes "serial_port")) _ h_1
            (λ port e_2 h_2.
              >>=-found (read_required yaml yaml.as_long root (codes "serial_baud_rate")) _ h_2
                (λ baud e_3 h_3.
                  >>=-found (read_bool yaml root (codes "enable_rtcm_tcp_loopback") false false) _
                    h_3
                    (λ loopback e_4 h_4.
                      >>=-found (loopback_port yaml files root loopback) _ h_4 (λ tcp_port e_5 h_5.
                        >>=-found (read_bool yaml root (codes "enable_ntrip_rtcm") false false) _
                          h_5
                          (λ ntrip e_6 h_6.
                            >>=-found (ntrip_fields yaml files root ntrip) _ h_6 (λ fields e_7 h_7.
                              >>=-found
                                (parse_gnss_system_mask yaml root (codes "raw_observation_systems")
                                  33)
                                _ h_7
                                (λ raw_mask raw h_8.
                                  >>=-found
                                    (parse_gnss_system_mask yaml root (codes "ephemeris_systems")
                                      33)
                                    _ h_8
                                    (λ ephem_mask ephem h_9.
                                      >>=-found (throw_if (loopback && ntrip)) _ h_9
                                        (λ passed_2 one h_10.
                                          >>=-found
                                            (read_bool yaml root (codes "enable_config_bring") false
                                              false)
                                            _ h_10
                                            (λ bring e_11 h_11.
                                              >>=-found
                                                (config_fields yaml files root config_dir
                                                  receiver_config_override bring)
                                                _ h_11
                                                (λ config e_12 h_12.
                                                  subst (Reads root) (some_injective h_12) (record {
                                                    serial = ground (
                                                      arith,
                                                      throw_if-passed (not serial) passed on,
                                                    );
                                                    one_input =
                                                        throw_if-passed (loopback && ntrip) passed_2
                                                          one;
                                                    loopback_read = e_4;
                                                    ntrip_read = e_6;
                                                    raw_read = raw;
                                                    ephem_read = ephem;
                                                    bring_read = e_11;
                                                  }))))))))))))))

  -- Parameters that `load_ublox_driver_params` returns have the serial input on, at most one of the
  -- two inputs of corrections, and masks of GPS, BDS or both, whatever the files hold.
  pub load_ublox_driver_params-checked :
      (files : Files Node) (root : Node) (config_dir receiver_config_override : Bytes)
      (p : UbloxDriverParams)
      → load_ublox_driver_params yaml files root config_dir receiver_config_override ≡ some p
      → (p.enable_serial ≡ true)
        × ((p.enable_rtcm_tcp_loopback && p.enable_ntrip_rtcm) ≡ false)
        × IsSupported p.raw_observation_system_mask
        × IsSupported p.ephemeris_system_mask
  load_ublox_driver_params-checked files root config_dir receiver_config_override p e =
      let reads =
        load_ublox_driver_params-Reads files root config_dir receiver_config_override p e in
      (
        reads.serial,
        reads.one_input,
        parse_gnss_system_mask-IsSupported root (codes "raw_observation_systems") _ reads.raw_read,
        parse_gnss_system_mask-IsSupported root (codes "ephemeris_systems") _ reads.ephem_read,
      )
