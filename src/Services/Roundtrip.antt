-- ===== src/Services/Roundtrip.antt =====
-- What a configuration is after it has been sent and read back, by backend/src/grpc_services.cpp.
use multi_radio.Common.{
  ℕ, ◌^◌, ◌<◌, ◌≡◌, refl, sym, ap, ap₂, ◌⊎◌, inl, inr, true, false, List, [], ◌∷◌, map, arith, ltb,
  ◌==◌, if◌then◌else◌, Bool-cases, Bytes, codes,
}
use multi_radio.Types.Data.{
  RadioMode, fixed, scan_range, scan_list, air_marine_plot, Modulation, nfm, wfm, am, fsk, gmsk,
  ppm, adsb_mod, ais_dual, vdes_asm, Int32, nonneg, ScanListChannel, ModeConfig,
}
use multi_radio.Types.Double.{Doubles, zero_of}
use multi_radio.Services.Convert.{
  radio_mode_from_proto, radio_mode_to_proto, modulation_from_proto, modulation_to_proto, to_int32,
  max_zero, positive_or, channel_from_proto, channel_to_proto, above_zero_or, to_proto, from_proto,
}

modulation_roundtrip : (m : Modulation) → modulation_from_proto (modulation_to_proto m) ≡ m
unfolding modulation_from_proto modulation_to_proto
modulation_roundtrip nfm = refl
modulation_roundtrip wfm = refl
modulation_roundtrip am = refl
modulation_roundtrip fsk = refl
modulation_roundtrip gmsk = refl
modulation_roundtrip ppm = refl
modulation_roundtrip adsb_mod = refl
modulation_roundtrip ais_dual = refl
modulation_roundtrip vdes_asm = refl

-- No modulation is sent as the number that stands for none.
modulation_given : (m : Modulation) → (modulation_to_proto m == 0) ≡ false
unfolding modulation_to_proto
modulation_given nfm = refl
modulation_given wfm = refl
modulation_given am = refl
modulation_given fsk = refl
modulation_given gmsk = refl
modulation_given ppm = refl
modulation_given adsb_mod = refl
modulation_given ais_dual = refl
modulation_given vdes_asm = refl

mode_roundtrip : (m : RadioMode) → radio_mode_from_proto (radio_mode_to_proto m) ≡ m
unfolding radio_mode_from_proto radio_mode_to_proto
mode_roundtrip fixed = refl
mode_roundtrip scan_range = refl
mode_roundtrip scan_list = refl
mode_roundtrip air_marine_plot = refl

module _ {D : Type 0} where
  channel_roundtrip : (c : ScanListChannel D) → channel_from_proto (channel_to_proto c) ≡ c
  unfolding channel_from_proto channel_to_proto
  channel_roundtrip c = ap (λ m. record c { modulation = m }) (modulation_roundtrip c.modulation)

  channels_roundtrip :
      (cs : List (ScanListChannel D)) → map channel_from_proto (map channel_to_proto cs) ≡ cs
  channels_roundtrip [] = refl
  channels_roundtrip (c ∷ cs) = ap₂ (λ x xs. x ∷ xs) (channel_roundtrip c) (channels_roundtrip cs)

module _ {D : Type 0} (f : Doubles D) where
  abbrev pub IsPositive : D → Type 0
  IsPositive v = f.lt (zero_of f) v ≡ true

  -- The settings that the messages can hold.
  pub record IsCarried (c : ModeConfig D) : Type 0 where
    pub gmsk_baud_rate_positive : 0 < c.gmsk_baud_rate
    pub ppm_bit_duration_us_positive : 0 < c.ppm_bit_duration_us
    pub ppm_data_rate_bps_positive : 0 < c.ppm_data_rate_bps
    pub vdes_asm_bit_rate_bps_positive : 0 < c.vdes_asm_bit_rate_bps
    pub vdes_asm_candidate_bits_positive : 0 < c.vdes_asm_candidate_bits
    pub gmsk_bt_positive : IsPositive c.gmsk_bt
    pub gmsk_modulation_index_positive : IsPositive c.gmsk_modulation_index
    pub vdes_asm_pll_bw_positive : IsPositive c.vdes_asm_pll_bw
    pub agc_bandwidth_known : IsPositive c.adsb_agc_bandwidth ⊎ (c.adsb_agc_bandwidth ≡ zero_of f)
    pub agc_level_known : IsPositive c.adsb_agc_target_level ⊎ (c.adsb_agc_target_level ≡ zero_of f)
    pub index_carried : (i : ℕ) × (i < 2 ^ 31) × (c.scan_list_locked_channel_index ≡ nonneg i)

  positive_or-positive : (n d : ℕ) → 0 < n → positive_or n d ≡ n
  positive_or-positive n d h = ground arith

  above_zero_or-positive : (v : D) (d : Bytes) → IsPositive v → above_zero_or f v d ≡ v
  above_zero_or-positive v d h = rw h refl

  above_zero_or-zero :
      (v : D) → IsPositive v ⊎ (v ≡ zero_of f) → above_zero_or f v (codes "0.0") ≡ v
  above_zero_or-zero v (inl h) = rw h refl
  above_zero_or-zero v (inr e) = elim (Bool-cases (f.lt (zero_of f) v)) [
    | inl above ↦ rw above refl
    | inr below ↦ rw below (sym e)
  ]

  index_roundtrip :
      (i : ℕ) (index : Int32) → i < 2 ^ 31 → index ≡ nonneg i → to_int32 (max_zero index) ≡ index
  index_roundtrip i index h e =
      let small : ltb i 2147483648 ≡ true = ground arith in rw (e, small) refl

  fixed_roundtrip :
      (m : Modulation)
      → (if modulation_to_proto m == 0 then wfm else modulation_from_proto (modulation_to_proto m))
        ≡ m
  fixed_roundtrip m = rw (modulation_given m) (modulation_roundtrip m)

  -- A configuration and a mode that are sent and read back are the same: every modulation, every
  -- channel of the list, every switch. The numbers that a message replaces by their defaults where
  -- they are not above zero are above zero (the two of the gain control may be zero), and a channel is
  -- named by its index.
  pub to_proto-from_proto :
      (c : ModeConfig D) (mode : RadioMode)
      → IsCarried c
      → (from_proto f (to_proto c) ≡ c) × (radio_mode_from_proto (radio_mode_to_proto mode) ≡ mode)
  unfolding from_proto to_proto
  to_proto-from_proto c mode ok =
      let (index, small, named) = ok.index_carried in
      (
        λ i. record c {
          fixed_modulation = (fixed_roundtrip c.fixed_modulation) i;
          scan_list_channels = (channels_roundtrip c.scan_list_channels) i;
          scan_list_locked_channel_index =
              (index_roundtrip index c.scan_list_locked_channel_index small named) i;
          gmsk_baud_rate =
              (positive_or-positive c.gmsk_baud_rate 9600 ok.gmsk_baud_rate_positive) i;
          ppm_bit_duration_us =
              (positive_or-positive c.ppm_bit_duration_us 10 ok.ppm_bit_duration_us_positive) i;
          ppm_data_rate_bps =
              (positive_or-positive c.ppm_data_rate_bps 100000 ok.ppm_data_rate_bps_positive) i;
          vdes_asm_bit_rate_bps =
              (positive_or-positive c.vdes_asm_bit_rate_bps 19200 ok.vdes_asm_bit_rate_bps_positive)
                i;
          vdes_asm_candidate_bits =
              (positive_or-positive c.vdes_asm_candidate_bits 1056
                  ok.vdes_asm_candidate_bits_positive)
                i;
          gmsk_bt = (above_zero_or-positive c.gmsk_bt (codes "0.4") ok.gmsk_bt_positive) i;
          gmsk_modulation_index =
              (above_zero_or-positive c.gmsk_modulation_index (codes "0.5")
                  ok.gmsk_modulation_index_positive)
                i;
          vdes_asm_pll_bw =
              (above_zero_or-positive c.vdes_asm_pll_bw (codes "0.01") ok.vdes_asm_pll_bw_positive)
                i;
          adsb_agc_bandwidth = (above_zero_or-zero c.adsb_agc_bandwidth ok.agc_bandwidth_known) i;
          adsb_agc_target_level = (above_zero_or-zero c.adsb_agc_target_level ok.agc_level_known) i;
        },
        mode_roundtrip mode,
      )
