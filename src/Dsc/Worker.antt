-- ===== src/Dsc/Worker.antt =====
-- What the settings that `PushPluginConfig` of backend/src/receiver_worker.cpp hands to
-- plugins/dsc_decoder.c make of it.
use multi_radio.Common.{
  ◌≤◌, ◌≡◌, refl, true, false, List, [], ◌∷◌, ◌++◌, arith, if◌then◌else◌, Bytes, codes,
}
use multi_radio.Ais.Bits.{ℤ, pos}
use multi_radio.Types.Data.{RadioMode, ModeConfig}
use multi_radio.Types.Double.{Doubles}
use multi_radio.Worker.ChainFlags.{
  has_ais_dual, use_nfm_dsc_audio, use_ais_msg8_handoff, demod_name,
}
use multi_radio.Worker.PluginConfig.{
  HostCall, param, use_decoder, use_postprocessor, use_asm_postprocessor, use_demodulator,
  nfm_dsc_calls, chain_calls, common_calls, push_plugin_config,
}
use multi_radio.Dsc.Decoder.{DscDecCtx, set_param}
use multi_radio.Dsc.Process.{process_bits, BitsCall, process_all}
use multi_radio.Dsc.Silence.{process_bits-silent}

-- The parameters that reach the plugin: the host hands each of them to every plugin.
unfoldable pub configure : (Bytes → ℤ) → List HostCall → DscDecCtx → DscDecCtx
unfolding set_param
configure atoi [] ctx = ctx
configure atoi (param key value ∷ calls) ctx = configure atoi calls (set_param atoi ctx key value).0
configure atoi (_ ∷ calls) ctx = configure atoi calls ctx

configure-append :
    (atoi : Bytes → ℤ) (calls later : List HostCall) (ctx : DscDecCtx)
    → configure atoi (calls ++ later) ctx ≡ configure atoi later (configure atoi calls ctx)
unfolding configure
configure-append atoi [] later ctx = refl
configure-append atoi (param key value ∷ calls) later ctx = configure-append atoi calls later _
configure-append atoi (use_decoder name ∷ calls) later ctx = configure-append atoi calls later ctx
configure-append atoi (use_postprocessor name ∷ calls) later ctx =
    configure-append atoi calls later ctx
configure-append atoi (use_asm_postprocessor name ∷ calls) later ctx =
    configure-append atoi calls later ctx
configure-append atoi (use_demodulator name ∷ calls) later ctx =
    configure-append atoi calls later ctx

-- Calls one after the other emit nothing.
process_all-silent :
    (calls : List BitsCall) (ctx : DscDecCtx)
    → 2 ≤ ctx.min_eos_tail_repeats
    → (process_all ctx calls).1 ≡ []
unfolding process_all
process_all-silent [] ctx h = refl
process_all-silent (c ∷ calls) ctx h =
    let (silent, kept) =
      process_bits-silent ctx c.bit_bytes c.bit_count c.unix_ms c.source_type h in
    rw
      (
        silent,
        process_all-silent calls
            (process_bits ctx c.bit_bytes c.bit_count c.unix_ms c.source_type).0
            (omega (arith, kept, h)),
      )
      refl

module _ {D : Type 0} (f : Doubles D) (mode : RadioMode) (cfg : ModeConfig D) where
  chain_calls-dsc :
      has_ais_dual mode cfg ≡ false
      → use_nfm_dsc_audio mode cfg ≡ true
      → chain_calls f mode cfg
        ≡ nfm_dsc_calls
          ++ (use_asm_postprocessor
                (if use_ais_msg8_handoff mode cfg then codes "asm_decoder" else [])
              ∷ [])
  unfolding chain_calls use_nfm_dsc_audio
  chain_calls-dsc not_dual dsc_audio = ground (arith, not_dual, dsc_audio)

  -- With the settings that the worker hands over for the DSC audio chain, whatever the decoder was
  -- before, it emits nothing of any bits.
  pub push_plugin_config-silent :
      (atoi : Bytes → ℤ) (ctx : DscDecCtx) (calls : List BitsCall)
      → has_ais_dual mode cfg ≡ false
      → use_nfm_dsc_audio mode cfg ≡ true
      → atoi (codes "2") ≡ pos 2
      → (process_all (configure atoi (push_plugin_config f mode cfg) ctx) calls).1 ≡ []
  unfolding push_plugin_config configure
  push_plugin_config-silent atoi ctx calls not_dual dsc_audio reads =
      let last = use_demodulator (demod_name mode cfg) ∷ [] in
      let before = configure atoi (common_calls f cfg) ctx in
      let repeats_two : (configure atoi (push_plugin_config f mode cfg) ctx).min_eos_tail_repeats
          ≡ 2 =
        rw
          (
            configure-append atoi (common_calls f cfg) (chain_calls f mode cfg ++ last) ctx,
            configure-append atoi (chain_calls f mode cfg) last before,
            chain_calls-dsc not_dual dsc_audio,
            reads,
          )
          refl in
      process_all-silent calls _ (omega (arith, repeats_two))
