-- ===== src/Services/Convert.antt =====
-- The conversions of backend/src/grpc_services.cpp.
use multi_radio.Common.{ℕ, ◌-◌, ◌^◌, map, ltb, ◌==◌, if◌then◌else◌, Bytes, codes}
use multi_radio.Types.Data.{
  RadioMode, fixed, scan_range, scan_list, air_marine_plot, Modulation, nfm, wfm, am, fsk, gmsk,
  ppm, adsb_mod, ais_dual, vdes_asm, Int32, nonneg, neg, ScanListChannel, ModeConfig,
}
use multi_radio.Services.Messages.{ProtoChannel, ProtoModeConfig}
use multi_radio.Types.Double.{Doubles, zero_of}

unfoldable pub radio_mode_from_proto : ℕ → RadioMode
radio_mode_from_proto mode =
    if mode == 2
    then scan_range
    else if mode == 3
    then scan_list
    else if mode == 4
    then air_marine_plot
    else fixed

unfoldable pub radio_mode_to_proto : RadioMode → ℕ
radio_mode_to_proto fixed = 1
radio_mode_to_proto scan_range = 2
radio_mode_to_proto scan_list = 3
radio_mode_to_proto air_marine_plot = 4

unfoldable pub modulation_from_proto : ℕ → Modulation
modulation_from_proto modulation =
    if modulation == 1
    then am
    else if modulation == 2
    then wfm
    else if modulation == 4
    then fsk
    else if modulation == 5
    then gmsk
    else if modulation == 6
    then ppm
    else if modulation == 7
    then adsb_mod
    else if modulation == 8
    then ais_dual
    else if modulation == 9
    then vdes_asm
    else nfm

unfoldable pub modulation_to_proto : Modulation → ℕ
modulation_to_proto am = 1
modulation_to_proto wfm = 2
modulation_to_proto fsk = 4
modulation_to_proto gmsk = 5
modulation_to_proto ppm = 6
modulation_to_proto adsb_mod = 7
modulation_to_proto ais_dual = 8
modulation_to_proto vdes_asm = 9
modulation_to_proto nfm = 3

-- `static_cast<int32_t>` of a `uint32_t`.
abbrev pub to_int32 : ℕ → Int32
to_int32 n = if ltb n (2 ^ 31) then nonneg n else neg (2 ^ 32 - 1 - n)

-- `std::max(0, i)`.
abbrev pub max_zero : Int32 → ℕ
max_zero (nonneg n) = n
max_zero (neg n) = 0

abbrev pub positive_or : ℕ → ℕ → ℕ
positive_or n default_value = if ltb 0 n then n else default_value

unfoldable pub channel_from_proto : {D : Type 0} → ProtoChannel D → ScanListChannel D
unfolding modulation_from_proto
channel_from_proto c = record {
  label = c.label;
  frequency_hz = c.frequency_hz;
  modulation = modulation_from_proto c.modulation;
  channel_bandwidth_hz = c.channel_bandwidth_hz;
  squelch_threshold_db = c.squelch_threshold_db;
  dwell_ms = c.dwell_ms;
  use_default_squelch = c.use_default_squelch;
  audio_gain_db = c.audio_gain_db;
}

unfoldable pub channel_to_proto : {D : Type 0} → ScanListChannel D → ProtoChannel D
unfolding modulation_to_proto
channel_to_proto c = record {
  label = c.label;
  frequency_hz = c.frequency_hz;
  modulation = modulation_to_proto c.modulation;
  channel_bandwidth_hz = c.channel_bandwidth_hz;
  squelch_threshold_db = c.squelch_threshold_db;
  dwell_ms = c.dwell_ms;
  use_default_squelch = c.use_default_squelch;
  audio_gain_db = c.audio_gain_db;
}

unfoldable pub to_proto : {D : Type 0} → ModeConfig D → ProtoModeConfig D
unfolding modulation_to_proto channel_to_proto
to_proto c = record {
  fixed_frequency_hz = c.fixed_frequency_hz;
  fixed_modulation = modulation_to_proto c.fixed_modulation;
  range_start_hz = c.range_start_hz;
  range_end_hz = c.range_end_hz;
  range_step_hz = c.range_step_hz;
  frequency_list_hz = c.frequency_list_hz;
  scan_list_channels = map channel_to_proto c.scan_list_channels;
  dwell_ms = c.dwell_ms;
  sample_rate_hz = c.sample_rate_hz;
  channel_bandwidth_hz = c.channel_bandwidth_hz;
  hardware_bandwidth_hz = c.hardware_bandwidth_hz;
  dc_blocker_enabled = c.dc_blocker_enabled;
  dc_blocker_cutoff_hz = c.dc_blocker_cutoff_hz;
  center_notch_enabled = c.center_notch_enabled;
  center_notch_width_hz = c.center_notch_width_hz;
  lo_offset_enabled = c.lo_offset_enabled;
  lo_offset_hz = c.lo_offset_hz;
  scan_list_monitor_mode = c.scan_list_monitor_mode;
  scan_list_default_squelch_db = c.scan_list_default_squelch_db;
  audio_hpf300_enabled = c.audio_hpf300_enabled;
  audio_lpf3k5_enabled = c.audio_lpf3k5_enabled;
  audio_bpf_voice_enabled = c.audio_bpf_voice_enabled;
  audio_lpf4k5_enabled = c.audio_lpf4k5_enabled;
  scan_list_channel_locked = c.scan_list_channel_locked;
  scan_list_locked_channel_index = max_zero c.scan_list_locked_channel_index;
  gmsk_baud_rate = c.gmsk_baud_rate;
  gmsk_bt = c.gmsk_bt;
  gmsk_modulation_index = c.gmsk_modulation_index;
  gmsk_decoder = c.gmsk_decoder;
  gmsk_postprocessor = c.gmsk_postprocessor;
  gmsk_nrzi_invert = c.gmsk_nrzi_invert;
  ppm_correction = c.ppm_correction;
  ppm_bit_duration_us = c.ppm_bit_duration_us;
  ppm_data_rate_bps = c.ppm_data_rate_bps;
  vdes_asm_bit_rate_bps = c.vdes_asm_bit_rate_bps;
  vdes_asm_pll_bw = c.vdes_asm_pll_bw;
  vdes_asm_candidate_bits = c.vdes_asm_candidate_bits;
  vdes_asm_sync_errors_max = c.vdes_asm_sync_errors_max;
  adsb_agc_bandwidth = c.adsb_agc_bandwidth;
  adsb_agc_target_level = c.adsb_agc_target_level;
  rnnoise_enabled = c.rnnoise_enabled;
  rnnoise_strength = c.rnnoise_strength;
}

module _ {D : Type 0} (f : Doubles D) where
  -- A number that is not above zero leaves the default.
  abbrev pub above_zero_or : D → Bytes → D
  above_zero_or v default_value = if f.lt (zero_of f) v then v else f.literal default_value

  unfoldable pub from_proto : ProtoModeConfig D → ModeConfig D
  unfolding modulation_from_proto channel_from_proto
  from_proto c = record {
    fixed_frequency_hz = c.fixed_frequency_hz;
    fixed_modulation =
        if c.fixed_modulation == 0 then wfm else modulation_from_proto c.fixed_modulation;
    range_start_hz = c.range_start_hz;
    range_end_hz = c.range_end_hz;
    range_step_hz = c.range_step_hz;
    frequency_list_hz = c.frequency_list_hz;
    scan_list_channels = map channel_from_proto c.scan_list_channels;
    dwell_ms = c.dwell_ms;
    sample_rate_hz = c.sample_rate_hz;
    channel_bandwidth_hz = c.channel_bandwidth_hz;
    hardware_bandwidth_hz = c.hardware_bandwidth_hz;
    dc_blocker_enabled = c.dc_blocker_enabled;
    dc_blocker_cutoff_hz = c.dc_blocker_cutoff_hz;
    center_notch_enabled = c.center_notch_enabled;
    center_notch_width_hz = c.center_notch_width_hz;
    lo_offset_enabled = c.lo_offset_enabled;
    lo_offset_hz = c.lo_offset_hz;
    scan_list_monitor_mode = c.scan_list_monitor_mode;
    scan_list_default_squelch_db = c.scan_list_default_squelch_db;
    audio_hpf300_enabled = c.audio_hpf300_enabled;
    audio_lpf3k5_enabled = c.audio_lpf3k5_enabled;
    audio_bpf_voice_enabled = c.audio_bpf_voice_enabled;
    audio_lpf4k5_enabled = c.audio_lpf4k5_enabled;
    scan_list_channel_locked = c.scan_list_channel_locked;
    scan_list_locked_channel_index = to_int32 c.scan_list_locked_channel_index;
    gmsk_baud_rate = positive_or c.gmsk_baud_rate 9600;
    gmsk_bt = above_zero_or c.gmsk_bt (codes "0.4");
    gmsk_modulation_index = above_zero_or c.gmsk_modulation_index (codes "0.5");
    gmsk_decoder = c.gmsk_decoder;
    gmsk_postprocessor = c.gmsk_postprocessor;
    gmsk_nrzi_invert = c.gmsk_nrzi_invert;
    ppm_correction = c.ppm_correction;
    ppm_bit_duration_us = positive_or c.ppm_bit_duration_us 10;
    ppm_data_rate_bps = positive_or c.ppm_data_rate_bps 100000;
    vdes_asm_bit_rate_bps = positive_or c.vdes_asm_bit_rate_bps 19200;
    vdes_asm_pll_bw = above_zero_or c.vdes_asm_pll_bw (codes "0.01");
    vdes_asm_candidate_bits = positive_or c.vdes_asm_candidate_bits 1056;
    vdes_asm_sync_errors_max = c.vdes_asm_sync_errors_max;
    adsb_agc_bandwidth = above_zero_or c.adsb_agc_bandwidth (codes "0.0");
    adsb_agc_target_level = above_zero_or c.adsb_agc_target_level (codes "0.0");
    rnnoise_enabled = c.rnnoise_enabled;
    rnnoise_strength = c.rnnoise_strength;
  }
