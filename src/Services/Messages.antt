-- ===== src/Services/Messages.antt =====
-- The messages of proto/radio.proto that the settings travel in: records with its fields. An
-- enumeration may hold any number and is a number.
use multi_radio.Common.{ℕ, Bool, List, Bytes}
use multi_radio.Types.Data.{Int32}

pub record ProtoChannel (D : Type 0) : Type 0 where
  pub label : Bytes
  pub frequency_hz : D
  pub modulation : ℕ
  pub channel_bandwidth_hz : ℕ
  pub squelch_threshold_db : D
  pub dwell_ms : ℕ
  pub use_default_squelch : Bool
  pub audio_gain_db : D

pub record ProtoModeConfig (D : Type 0) : Type 0 where
  pub fixed_frequency_hz : D
  pub fixed_modulation : ℕ
  pub range_start_hz : D
  pub range_end_hz : D
  pub range_step_hz : D
  pub frequency_list_hz : List D
  pub scan_list_channels : List (ProtoChannel D)
  pub dwell_ms : ℕ
  pub sample_rate_hz : ℕ
  pub channel_bandwidth_hz : ℕ
  pub hardware_bandwidth_hz : ℕ
  pub dc_blocker_enabled : Bool
  pub dc_blocker_cutoff_hz : ℕ
  pub center_notch_enabled : Bool
  pub center_notch_width_hz : ℕ
  pub lo_offset_enabled : Bool
  pub lo_offset_hz : Int32
  pub scan_list_monitor_mode : Bool
  pub scan_list_default_squelch_db : D
  pub audio_hpf300_enabled : Bool
  pub audio_lpf3k5_enabled : Bool
  pub audio_bpf_voice_enabled : Bool
  pub audio_lpf4k5_enabled : Bool
  pub scan_list_channel_locked : Bool
  pub scan_list_locked_channel_index : ℕ
  pub gmsk_baud_rate : ℕ
  pub gmsk_bt : D
  pub gmsk_modulation_index : D
  pub gmsk_decoder : Bytes
  pub gmsk_postprocessor : Bytes
  pub gmsk_nrzi_invert : Bool
  pub ppm_correction : Int32
  pub ppm_bit_duration_us : ℕ
  pub ppm_data_rate_bps : ℕ
  pub vdes_asm_bit_rate_bps : ℕ
  pub vdes_asm_pll_bw : D
  pub vdes_asm_candidate_bits : ℕ
  pub vdes_asm_sync_errors_max : ℕ
  pub adsb_agc_bandwidth : D
  pub adsb_agc_target_level : D
  pub rnnoise_enabled : Bool
  pub rnnoise_strength : D
