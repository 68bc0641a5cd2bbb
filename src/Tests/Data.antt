-- ===== src/Tests/Data.antt =====
-- Settings for the tests: two channels, and doubles that are numbers, which are enough to compare.
use multi_radio.Common.{ℕ, ◌+◌, ◌*◌, true, false, none, [], ◌∷◌, ltb, leb, ◌==◌, codes}
use multi_radio.Types.Data.{nfm, wfm, nonneg, neg, ScanListChannel, ModeConfig}
use multi_radio.Types.Double.{Doubles}

abbrev pub whole : Doubles ℕ
whole = record {
  literal = λ s. 0;
  lt = ltb;
  le = leb;
  eq = λ a b. a == b;
  plus = λ a b. a + b;
  times = λ a b. a * b;
  is_finite = λ a. true;
  nan = 0;
  to_string = λ a. [];
  strtod = λ s. none;
}

abbrev pub channel_at : ℕ → ScanListChannel ℕ
channel_at hz = record {
  label = codes "";
  frequency_hz = hz;
  modulation = nfm;
  channel_bandwidth_hz = 0;
  squelch_threshold_db = 10;
  dwell_ms = 0;
  use_default_squelch = false;
  audio_gain_db = 0;
}

abbrev pub two_channels : ModeConfig ℕ
two_channels = record {
  fixed_frequency_hz = 0;
  fixed_modulation = wfm;
  range_start_hz = 0;
  range_end_hz = 0;
  range_step_hz = 0;
  frequency_list_hz = [];
  scan_list_channels = channel_at 100 ∷ channel_at 200 ∷ [];
  dwell_ms = 500;
  sample_rate_hz = 2048000;
  channel_bandwidth_hz = 30000;
  hardware_bandwidth_hz = 0;
  dc_blocker_enabled = false;
  dc_blocker_cutoff_hz = 30;
  center_notch_enabled = false;
  center_notch_width_hz = 2000;
  lo_offset_enabled = false;
  lo_offset_hz = nonneg 0;
  scan_list_monitor_mode = false;
  scan_list_default_squelch_db = 0;
  audio_hpf300_enabled = false;
  audio_lpf3k5_enabled = false;
  audio_bpf_voice_enabled = false;
  audio_lpf4k5_enabled = false;
  scan_list_channel_locked = false;
  scan_list_locked_channel_index = neg 0;
  gmsk_baud_rate = 9600;
  gmsk_bt = 0;
  gmsk_modulation_index = 0;
  gmsk_decoder = codes "";
  gmsk_postprocessor = codes "";
  gmsk_nrzi_invert = false;
  ppm_correction = nonneg 0;
  ppm_bit_duration_us = 10;
  ppm_data_rate_bps = 100000;
  vdes_asm_bit_rate_bps = 19200;
  vdes_asm_pll_bw = 0;
  vdes_asm_candidate_bits = 1056;
  vdes_asm_sync_errors_max = 1;
  adsb_agc_bandwidth = 0;
  adsb_agc_target_level = 0;
  rnnoise_enabled = false;
  rnnoise_strength = 100;
}
