-- ===== src/Types/Data.antt =====
-- The types of backend/include/multi_radio/types.hpp. `D` is the type of the `double` and `float`
-- values; fixed-width integers are numbers, and a signed field is an `Int32`.
use multi_radio.Common.{ℕ, Bool, List, Bytes}

pub data RadioMode : Type 0 where
  fixed scan_range scan_list air_marine_plot : RadioMode

pub data SignalType : Type 0 where
  unknown ais adsb dsc : SignalType

pub data Modulation : Type 0 where
  nfm wfm am fsk gmsk ppm adsb_mod ais_dual vdes_asm : Modulation

pub data EventKind : Type 0 where
  info warning error state_change tune_hop : EventKind

-- A signed integer: `neg n` is -(n + 1).
pub data Int32 : Type 0 where
  nonneg : ℕ → Int32
  neg : ℕ → Int32

pub record ScanListChannel (D : Type 0) : Type 0 where
  pub label : Bytes
  pub frequency_hz : D
  pub modulation : Modulation
  pub channel_bandwidth_hz : ℕ
  pub squelch_threshold_db : D
  pub dwell_ms : ℕ
  pub use_default_squelch : Bool
  pub audio_gain_db : D

pub record ModeConfig (D : Type 0) : Type 0 where
  pub fixed_frequency_hz : D
  pub fixed_modulation : Modulation
  pub range_start_hz : D
  pub range_end_hz : D
  pub range_step_hz : D
  pub frequency_list_hz : List D
  pub scan_list_channels : List (ScanListChannel D)
  pub dwell_ms : ℕ
  pub sample_rate_hz : ℕ
  pub channel_bandwidth_hz : ℕ
  pub hardware_bandwidth_hz : ℕ
  pub dc_blocker_enabled : Bool
  pub dc_blocker_cutoff_hz : ℕ
  pub center_notch_enabled : Bool
  pub center_notch_width_hz : ℕ
  pub lo_offset_enabled : Bool
  pub lo_offset_hz : Int32
  pub scan_list_monitor_mode : Bool
  pub scan_list_default_squelch_db : D
  pub audio_hpf300_enabled : Bool
  pub audio_lpf3k5_enabled : Bool
  pub audio_bpf_voice_enabled : Bool
  pub audio_lpf4k5_enabled : Bool
  pub scan_list_channel_locked : Bool
  pub scan_list_locked_channel_index : Int32
  pub gmsk_baud_rate : ℕ
  pub gmsk_bt : D
  pub gmsk_modulation_index : D
  pub gmsk_decoder : Bytes
  pub gmsk_postprocessor : Bytes
  pub gmsk_nrzi_invert : Bool
  pub ppm_correction : Int32
  pub ppm_bit_duration_us : ℕ
  pub ppm_data_rate_bps : ℕ
  pub vdes_asm_bit_rate_bps : ℕ
  pub vdes_asm_pll_bw : D
  pub vdes_asm_candidate_bits : ℕ
  pub vdes_asm_sync_errors_max : ℕ
  pub adsb_agc_bandwidth : D
  pub adsb_agc_target_level : D
  pub rnnoise_enabled : Bool
  pub rnnoise_strength : D

pub record ReceiverDescriptor : Type 0 where
  pub receiver_id : ℕ
  pub serial : Bytes

pub record ReceiverStatus (D : Type 0) : Type 0 where
  pub receiver_id : ℕ
  pub serial : Bytes
  pub running : Bool
  pub mode : RadioMode
  pub mode_config : ModeConfig D
  pub last_error : Bytes

pub record ReceiverEvent (D : Type 0) : Type 0 where
  pub unix_ms : ℕ
  pub receiver_id : ℕ
  pub kind : EventKind
  pub message : Bytes
  pub tuned_frequency_hz : D

pub record DecodedMessage (D : Type 0) : Type 0 where
  pub unix_ms : ℕ
  pub receiver_id : ℕ
  pub signal_type : SignalType
  pub frequency_hz : D
  pub payload : Bytes
  pub normalized_fields : List (Bytes × Bytes)

pub record AudioFrame (D : Type 0) : Type 0 where
  pub unix_ms : ℕ
  pub receiver_id : ℕ
  pub sample_rate_hz : ℕ
  pub pcm_s16le : List ℕ
  pub tuned_frequency_hz : D
  pub sequence : ℕ
  pub sample_index : ℕ

pub record IqSampleBlock : Type 0 where
  pub interleaved_iq : List ℕ
  pub sample_rate_hz : ℕ
  pub center_frequency_hz : ℕ

pub record IqFrame (D : Type 0) : Type 0 where
  pub unix_ms : ℕ
  pub receiver_id : ℕ
  pub sample_rate_hz : ℕ
  pub interleaved_iq_s16le : List ℕ
  pub tuned_frequency_hz : D
  pub sequence : ℕ
  pub sample_index : ℕ

pub record PluginInfo : Type 0 where
  pub plugin_name : Bytes
  pub plugin_version : Bytes
  pub api_version : ℕ
  pub supported_signals : List SignalType
  pub enabled : Bool
  pub path : Bytes
