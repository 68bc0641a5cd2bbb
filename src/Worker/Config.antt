-- ===== src/Worker/Config.antt =====
-- The settings of a receiver and the tables over the modulations, in
-- backend/src/receiver_worker.cpp. The names are those of the source without their prefix `k`.
use multi_radio.Common.{
  ℕ, ◌+◌, ◌-◌, ◌*◌, ◌/◌, ◌^◌, ◌<◌, min, ◌≡◌, Bool, true, false, ◌||◌, [], ◌==◌, if◌then◌else◌,
  Bytes, codes, ◌≤◌, refl, not, arith, is_empty,
}
use multi_radio.Types.Data.{
  RadioMode, scan_range, scan_list, air_marine_plot, SignalType, unknown, ais, adsb, dsc,
  Modulation, nfm, wfm, am, fsk, gmsk, ppm, adsb_mod, ais_dual, vdes_asm, Int32, nonneg, neg,
  ModeConfig,
}

abbrev pub default_sample_rate_hz : ℕ
default_sample_rate_hz = 2048000

abbrev pub wfm_max_runtime_sample_rate_hz : ℕ
wfm_max_runtime_sample_rate_hz = 1024000

abbrev pub default_channel_bandwidth_hz : ℕ
default_channel_bandwidth_hz = 30000

abbrev pub audio_frame_interval_ms : ℕ
audio_frame_interval_ms = 20

-- `==` of two modulations.
abbrev pub is_adsb : Modulation → Bool
is_adsb adsb_mod = true
is_adsb _ = false

abbrev pub is_ais_dual : Modulation → Bool
is_ais_dual ais_dual = true
is_ais_dual _ = false

abbrev pub is_vdes_asm : Modulation → Bool
is_vdes_asm vdes_asm = true
is_vdes_asm _ = false

abbrev pub is_nfm : Modulation → Bool
is_nfm nfm = true
is_nfm _ = false

abbrev pub is_wfm : Modulation → Bool
is_wfm wfm = true
is_wfm _ = false

-- `mode == kScanList || mode == kAirMarinePlot`.
abbrev pub is_scanner : RadioMode → Bool
is_scanner scan_list = true
is_scanner air_marine_plot = true
is_scanner _ = false

abbrev pub is_scan_range : RadioMode → Bool
is_scan_range scan_range = true
is_scan_range _ = false

abbrev pub or_default : ℕ → ℕ → ℕ
or_default n d = if n == 0 then d else n

-- Its last test, for a modulation that is none of the enumerators, cannot succeed.
unfoldable pub normalize_mode_config : {D : Type 0} → ModeConfig D → ModeConfig D
normalize_mode_config input = record input {
  dwell_ms = or_default input.dwell_ms 500;
  sample_rate_hz =
      or_default input.sample_rate_hz
        (if is_adsb input.fixed_modulation then 2400000 else default_sample_rate_hz);
  channel_bandwidth_hz = or_default input.channel_bandwidth_hz default_channel_bandwidth_hz;
}

unfoldable pub audio_sample_rate_for_modulation : Modulation → ℕ
audio_sample_rate_for_modulation wfm = 32000
audio_sample_rate_for_modulation gmsk = 0
audio_sample_rate_for_modulation fsk = 0
audio_sample_rate_for_modulation ppm = 0
audio_sample_rate_for_modulation adsb_mod = 0
audio_sample_rate_for_modulation ais_dual = 0
audio_sample_rate_for_modulation vdes_asm = 0
audio_sample_rate_for_modulation _ = 12000

unfoldable pub modulation_token : Modulation → Bytes
modulation_token am = codes "AM"
modulation_token wfm = codes "WFM"
modulation_token fsk = codes "FSK"
modulation_token gmsk = codes "GMSK"
modulation_token ppm = codes "PPM"
modulation_token adsb_mod = codes "ADSB"
modulation_token ais_dual = codes "AIS_DUAL"
modulation_token vdes_asm = codes "VDES_ASM"
modulation_token nfm = codes "NFM"

unfoldable pub is_fm_modulation : Modulation → Bool
is_fm_modulation m = is_nfm m || is_wfm m

unfoldable pub demod_name_for_modulation : Modulation → Bytes
demod_name_for_modulation fsk = codes "fsk_demod"
demod_name_for_modulation gmsk = codes "gmsk_demod"
demod_name_for_modulation ppm = codes "ppm_demod"
demod_name_for_modulation adsb_mod = codes "adsb_demod"
demod_name_for_modulation ais_dual = codes "ais_dual_demod"
demod_name_for_modulation vdes_asm = codes "iq_recorder"
demod_name_for_modulation _ = []

unfoldable pub signal_type_token : SignalType → Bytes
signal_type_token ais = codes "AIS"
signal_type_token adsb = codes "ADSB"
signal_type_token dsc = codes "DSC"
signal_type_token unknown = codes "UNKNOWN"

unfoldable pub audio_frame_samples_for_rate : ℕ → ℕ
audio_frame_samples_for_rate rate = if rate == 0 then 0 else rate * audio_frame_interval_ms / 1000

-- `is_digital_plugin_mode` of the ingest loop.
unfoldable pub is_digital_plugin_mode : Modulation → Bool
is_digital_plugin_mode gmsk = true
is_digital_plugin_mode fsk = true
is_digital_plugin_mode ppm = true
is_digital_plugin_mode adsb_mod = true
is_digital_plugin_mode ais_dual = true
is_digital_plugin_mode vdes_asm = true
is_digital_plugin_mode _ = false

-- `effective_sample_rate_hz` of the ingest loop.
unfoldable pub effective_sample_rate : RadioMode → Modulation → ℕ → ℕ
effective_sample_rate mode m requested =
    if is_adsb m
    then 2400000
    else if is_scan_range mode || is_digital_plugin_mode m
    then requested
    else min requested wfm_max_runtime_sample_rate_hz

-- `hardware_tuned_frequency_hz` of the ingest loop: the offset is added in 64 bits, and the sum
-- clamped to a `uint32_t`.
unfoldable pub hardware_tuned_frequency : Bool → Int32 → ℕ → ℕ
hardware_tuned_frequency lo_offset_enabled lo_offset_hz tuned =
    min (if lo_offset_enabled then shifted lo_offset_hz else tuned) (2 ^ 32 - 1)
  where
    shifted : Int32 → ℕ
    shifted (nonneg n) = tuned + n
    shifted (neg n) = tuned - (n + 1)

abbrev pub IsNormalized : {D : Type 0} → ModeConfig D → Type 0
IsNormalized c = (0 < c.dwell_ms) × (0 < c.sample_rate_hz) × (0 < c.channel_bandwidth_hz)

pub normalize-IsNormalized :
    {D : Type 0} (c : ModeConfig D) → IsNormalized (normalize_mode_config c)
unfolding normalize_mode_config
normalize-IsNormalized c = ground arith

pub normalize-id : {D : Type 0} (c : ModeConfig D) → IsNormalized c → normalize_mode_config c ≡ c
unfolding normalize_mode_config
normalize-id c h = ground arith

-- The tables over the modulations agree: a plugin demodulator is named for exactly the modulations
-- that the ingest loop treats as digital, exactly those have no PCM frame, and for the others,
-- outside a range scan, the sample rate is capped; a digital modulation runs at the rate requested,
-- but ADS-B always at 2.4 MHz.
pub tables_agree :
    (mode : RadioMode) (m : Modulation) (requested : ℕ)
    → ((audio_frame_samples_for_rate (audio_sample_rate_for_modulation m) == 0)
        ≡ is_digital_plugin_mode m)
      × (not (is_empty (demod_name_for_modulation m)) ≡ is_digital_plugin_mode m)
      × (is_scan_range mode ≡ false
          → is_digital_plugin_mode m ≡ false
          → effective_sample_rate mode m requested ≤ wfm_max_runtime_sample_rate_hz)
      × (is_digital_plugin_mode m ≡ true
          → effective_sample_rate mode m requested ≡ (if is_adsb m then 2400000 else requested))
unfolding audio_frame_samples_for_rate audio_sample_rate_for_modulation is_digital_plugin_mode
    demod_name_for_modulation effective_sample_rate
tables_agree mode nfm requested = (refl, refl, (λ h k. ground arith), (λ k. ground arith))
tables_agree mode _ requested = (refl, refl, (λ h k. ground arith), (λ k. ground arith))
