-- ===== src/Worker/ChainFlags.antt =====
-- The choices of `PushPluginConfig` of backend/src/receiver_worker.cpp: which chain of plugins a mode
-- and its settings ask for, and the labels that the event log shows of it.
use multi_radio.Common.{
  ℕ, ◌*◌, ◌%◌, ◌^◌, max, Bool, not, ◌&&◌, ◌||◌, [], ◌∷◌, ltb, if◌then◌else◌, any, Bytes, codes,
  same,
}
use multi_radio.Types.Data.{RadioMode, Modulation, ModeConfig}
use multi_radio.Worker.Config.{
  is_ais_dual, is_vdes_asm, is_nfm, is_scanner, demod_name_for_modulation,
}

abbrev pub flag : Bool → Bytes
flag b = if b then codes "1" else codes "0"

-- What the log shows of the chain.
pub record ChainLabels : Type 0 where
  pub decoder_label : Bytes
  pub postproc_label : Bytes
  pub asm_postproc_label : Bytes
  pub invert_label : Bytes

module _ {D : Type 0} where
  unfoldable pub has_ais_dual : RadioMode → ModeConfig D → Bool
  has_ais_dual mode cfg =
      is_ais_dual cfg.fixed_modulation
      || (is_scanner mode && any (λ ch. is_ais_dual ch.modulation) cfg.scan_list_channels)

  -- The modulation of the first channel in a mode that scans a list.
  unfoldable pub effective_modulation : RadioMode → ModeConfig D → Modulation
  effective_modulation mode cfg = elim cfg.scan_list_channels [
    | [] ↦ cfg.fixed_modulation
    | ch ∷ _ ↦ if is_scanner mode then ch.modulation else cfg.fixed_modulation
  ]

  unfoldable pub use_iq_recorder : RadioMode → ModeConfig D → Bool
  use_iq_recorder mode cfg = is_vdes_asm (effective_modulation mode cfg)

  unfoldable pub use_vdes_asm_sketch : RadioMode → ModeConfig D → Bool
  use_vdes_asm_sketch mode cfg =
      not (use_iq_recorder mode cfg)
      && (same cfg.gmsk_decoder (codes "vdes_asm_decoder")
          || same cfg.gmsk_postprocessor (codes "vdes_asm_postproc"))

  unfoldable pub use_nfm_dsc_audio : RadioMode → ModeConfig D → Bool
  use_nfm_dsc_audio mode cfg =
      not (use_iq_recorder mode cfg)
      && (not (use_vdes_asm_sketch mode cfg)
          && (is_nfm (effective_modulation mode cfg)
              && same cfg.gmsk_decoder (codes "dsc_decoder")))

  unfoldable pub use_ais_msg8_handoff : RadioMode → ModeConfig D → Bool
  use_ais_msg8_handoff mode cfg =
      not (is_ais_dual (effective_modulation mode cfg))
      && same cfg.gmsk_postprocessor (codes "ais_decoder")

  unfoldable pub vdes_bit_rate : ModeConfig D → ℕ
  vdes_bit_rate cfg = max 2400 (
      if ltb 0 cfg.vdes_asm_bit_rate_bps
      then cfg.vdes_asm_bit_rate_bps
      else cfg.gmsk_baud_rate * 2 % 2 ^ 32)

  unfoldable pub demod_name : RadioMode → ModeConfig D → Bytes
  demod_name mode cfg =
      if use_vdes_asm_sketch mode cfg && not (is_ais_dual (effective_modulation mode cfg))
      then codes "vdes_asm_demod"
      else if use_nfm_dsc_audio mode cfg
      then codes "dsc_afsk_demod"
      else demod_name_for_modulation (effective_modulation mode cfg)

  unfoldable pub chain_labels : RadioMode → ModeConfig D → ChainLabels
  chain_labels mode cfg =
      let asm : Bytes =
        if use_ais_msg8_handoff mode cfg then codes "asm_decoder" else codes "(none)" in
      if is_ais_dual (effective_modulation mode cfg)
      then record {
        decoder_label = codes "nrzi_decoder";
        postproc_label = codes "ais_decoder";
        asm_postproc_label = codes "asm_decoder";
        invert_label = codes "1";
      }
      else if use_iq_recorder mode cfg
      then record {
        decoder_label = codes "(none)";
        postproc_label = codes "(none)";
        asm_postproc_label = codes "(none)";
        invert_label = codes "0";
      }
      else if use_vdes_asm_sketch mode cfg
      then record {
        decoder_label = codes "vdes_asm_decoder";
        postproc_label = codes "vdes_asm_postproc";
        asm_postproc_label = asm;
        invert_label = codes "0";
      }
      else if use_nfm_dsc_audio mode cfg
      then record {
        decoder_label = codes "dsc_decoder";
        postproc_label = codes "(none)";
        asm_postproc_label = codes "(none)";
        invert_label = codes "0";
      }
      else record {
        decoder_label = cfg.gmsk_decoder;
        postproc_label = cfg.gmsk_postprocessor;
        asm_postproc_label = asm;
        invert_label = flag cfg.gmsk_nrzi_invert;
      }
