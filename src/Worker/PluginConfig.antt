-- ===== src/Worker/PluginConfig.antt =====
-- `PushPluginConfig` of backend/src/receiver_worker.cpp: the calls that set up the chain of plugins,
-- in order.
use multi_radio.Common.{min, max, List, [], ◌∷◌, ◌++◌, if◌then◌else◌, Bytes, codes}
use multi_radio.Types.Data.{RadioMode, ModeConfig}
use multi_radio.Types.Double.{Doubles}
use multi_radio.Worker.ChainFlags.{
  flag, has_ais_dual, use_iq_recorder, use_vdes_asm_sketch, use_nfm_dsc_audio, use_ais_msg8_handoff,
  vdes_bit_rate, demod_name,
}
use multi_radio.Worker.Channel.{to_decimal}
use multi_radio.Plugins.Host.{
  PluginHost, set_param, set_active_decoder, set_active_demodulator, set_active_postprocessor,
  set_active_asm_postprocessor,
}

pub data HostCall : Type 0 where
  param : Bytes → Bytes → HostCall
  use_decoder : Bytes → HostCall
  use_postprocessor : Bytes → HostCall
  use_asm_postprocessor : Bytes → HostCall
  use_demodulator : Bytes → HostCall

-- A call on the host and the memory of its plugins.
unfoldable pub call : {W D : Type 0} → HostCall → PluginHost W D × W → PluginHost W D × W
call (param key value) (h, w) = (h, set_param key value h.plugins w)
call (use_decoder name) (h, w) = (set_active_decoder name h, w)
call (use_postprocessor name) (h, w) = (set_active_postprocessor name h, w)
call (use_asm_postprocessor name) (h, w) = (set_active_asm_postprocessor name h, w)
call (use_demodulator name) (h, w) = (set_active_demodulator name h, w)

unfoldable pub call_all : {W D : Type 0} → List HostCall → PluginHost W D × W → PluginHost W D × W
call_all [] s = s
call_all (c ∷ cs) s = call_all cs (call c s)

abbrev pub ais_dual_calls : List HostCall
ais_dual_calls =
    use_decoder (codes "nrzi_decoder")
    ∷ param (codes "invert") (codes "1")
    ∷ use_postprocessor (codes "ais_decoder")
    ∷ use_asm_postprocessor (codes "asm_decoder")
    ∷ []

abbrev pub iq_recorder_calls : List HostCall
iq_recorder_calls =
    use_decoder []
    ∷ use_postprocessor []
    ∷ use_asm_postprocessor []
    ∷ param (codes "recording_start") (codes "1")
    ∷ []

abbrev pub nfm_dsc_calls : List HostCall
nfm_dsc_calls =
    use_decoder (codes "dsc_decoder")
    ∷ use_postprocessor []
    ∷ use_asm_postprocessor []
    ∷ param (codes "baud_rate") (codes "1200")
    ∷ param (codes "mark_hz") (codes "1300")
    ∷ param (codes "space_hz") (codes "2100")
    ∷ param (codes "bit1_is_mark") (codes "1")
    ∷ param (codes "dsc_require_eos") (codes "1")
    ∷ param (codes "dsc_require_format_repeat") (codes "1")
    ∷ param (codes "dsc_min_eos_repeats") (codes "2")
    ∷ param (codes "dsc_min_emit_interval_ms") (codes "400")
    ∷ []

module _ {D : Type 0} (f : Doubles D) where
  -- A parameter that is set only if it is above 0.
  abbrev pub param_above_zero : Bytes → D → List HostCall
  param_above_zero key x =
      if f.lt (f.literal (codes "0.0f")) x then param key (f.to_string x) ∷ [] else []

  unfoldable pub common_calls : ModeConfig D → List HostCall
  common_calls cfg =
      (param (codes "baud_rate") (to_decimal cfg.gmsk_baud_rate)
        ∷ param (codes "bt") (f.to_string cfg.gmsk_bt)
        ∷ param (codes "modulation_index") (f.to_string cfg.gmsk_modulation_index)
        ∷ param (codes "channel_bandwidth_hz") (to_decimal cfg.channel_bandwidth_hz)
        ∷ param (codes "invert") (flag cfg.gmsk_nrzi_invert)
        ∷ param (codes "bit_duration_us") (to_decimal cfg.ppm_bit_duration_us)
        ∷ param (codes "data_rate") (to_decimal cfg.ppm_data_rate_bps)
        ∷ [])
      ++ (param_above_zero (codes "adsb_agc_bandwidth") cfg.adsb_agc_bandwidth
          ++ param_above_zero (codes "adsb_agc_target_level") cfg.adsb_agc_target_level)

  -- `std::max(0.0001f, x)`.
  abbrev pub pll_bw : D → D
  pll_bw x = if f.lt (f.literal (codes "0.0001f")) x then x else f.literal (codes "0.0001f")

  unfoldable pub vdes_sketch_calls : ModeConfig D → List HostCall
  vdes_sketch_calls cfg =
      use_decoder (codes "vdes_asm_decoder")
      ∷ use_postprocessor (codes "vdes_asm_postproc")
      ∷ param (codes "invert") (codes "0")
      ∷ param (codes "bit_rate_bps") (to_decimal (vdes_bit_rate cfg))
      ∷ param (codes "pll_bw") (f.to_string (pll_bw cfg.vdes_asm_pll_bw))
      ∷ param (codes "candidate_bits") (to_decimal (max 96 cfg.vdes_asm_candidate_bits))
      ∷ param (codes "sync_errors_max") (to_decimal (min 8 cfg.vdes_asm_sync_errors_max))
      ∷ []

  unfoldable pub chain_calls : RadioMode → ModeConfig D → List HostCall
  chain_calls mode cfg =
      let handoff =
        use_asm_postprocessor (if use_ais_msg8_handoff mode cfg then codes "asm_decoder" else [])
        ∷ [] in
      if has_ais_dual mode cfg
      then ais_dual_calls
      else if use_iq_recorder mode cfg
      then iq_recorder_calls
      else if use_vdes_asm_sketch mode cfg
      then vdes_sketch_calls cfg ++ handoff
      else if use_nfm_dsc_audio mode cfg
      then nfm_dsc_calls ++ handoff
      else (use_decoder cfg.gmsk_decoder ∷ use_postprocessor cfg.gmsk_postprocessor ∷ []) ++ handoff

  -- Every call on the host that `PushPluginConfig` makes, in order.
  unfoldable pub push_plugin_config : RadioMode → ModeConfig D → List HostCall
  push_plugin_config mode cfg =
      common_calls cfg ++ (chain_calls mode cfg ++ (use_demodulator (demod_name mode cfg) ∷ []))
