-- ===== src/Worker/ChainNames.antt =====
-- What `PushPluginConfig` of backend/src/receiver_worker.cpp leaves selected on the plugin host.
use multi_radio.Common.{
  ◌≡◌, refl, sym, ap, ◌∙◌, inl, inr, List, [], ◌∷◌, ◌++◌, if◌then◌else◌, Bool-cases, Bytes, codes,
}
use multi_radio.Types.Data.{RadioMode, ModeConfig}
use multi_radio.Types.Double.{Doubles}
use multi_radio.Worker.ChainFlags.{
  has_ais_dual, use_iq_recorder, use_vdes_asm_sketch, use_nfm_dsc_audio, use_ais_msg8_handoff,
  demod_name,
}
use multi_radio.Worker.PluginConfig.{
  HostCall, param, use_decoder, use_postprocessor, use_asm_postprocessor, use_demodulator, call,
  call_all, common_calls, vdes_sketch_calls, chain_calls, push_plugin_config,
}
use multi_radio.Plugins.Host.{
  PluginHost, set_active_decoder, set_active_demodulator, set_active_postprocessor,
  set_active_asm_postprocessor,
}

-- The names that a host has selected.
pub record ChainNames : Type 0 where
  pub decoder_name : Bytes
  pub postprocessor_name : Bytes
  pub asm_postprocessor_name : Bytes
  pub demodulator_name : Bytes

abbrev pub names_of : {W D : Type 0} → PluginHost W D → ChainNames
names_of h = record {
  decoder_name = h.active_decoder_name;
  postprocessor_name = h.active_postprocessor_name;
  asm_postprocessor_name = h.active_asm_postprocessor_name;
  demodulator_name = h.active_demodulator_name;
}

module _ {D : Type 0} where
  abbrev pub handoff_name : RadioMode → ModeConfig D → Bytes
  handoff_name mode cfg = if use_ais_msg8_handoff mode cfg then codes "asm_decoder" else []

  -- The three stages behind the demodulator, as a table.
  abbrev pub stage_names : RadioMode → ModeConfig D → Bytes × Bytes × Bytes
  stage_names mode cfg =
      if has_ais_dual mode cfg
      then (codes "nrzi_decoder", codes "ais_decoder", codes "asm_decoder")
      else if use_iq_recorder mode cfg
      then ([], [], [])
      else if use_vdes_asm_sketch mode cfg
      then (codes "vdes_asm_decoder", codes "vdes_asm_postproc", handoff_name mode cfg)
      else if use_nfm_dsc_audio mode cfg
      then (codes "dsc_decoder", [], handoff_name mode cfg)
      else (cfg.gmsk_decoder, cfg.gmsk_postprocessor, handoff_name mode cfg)

  abbrev pub chain_names : RadioMode → ModeConfig D → ChainNames
  chain_names mode cfg = record {
    decoder_name = (stage_names mode cfg).0;
    postprocessor_name = (stage_names mode cfg).1;
    asm_postprocessor_name = (stage_names mode cfg).2;
    demodulator_name = demod_name mode cfg;
  }

module _ {W D : Type 0} where
  call_all-append :
      (xs ys : List HostCall) (s : PluginHost W D × W)
      → call_all (xs ++ ys) s ≡ call_all ys (call_all xs s)
  unfolding call_all
  call_all-append [] ys s = refl
  call_all-append (x ∷ xs) ys s = call_all-append xs ys (call x s)

  call-plugins : (c : HostCall) (s : PluginHost W D × W) → (call c s).0.plugins ≡ s.0.plugins
  unfolding call set_active_decoder set_active_demodulator set_active_postprocessor
      set_active_asm_postprocessor
  call-plugins (param key value) (h, w) = refl
  call-plugins (use_decoder name) (h, w) = refl
  call-plugins (use_postprocessor name) (h, w) = refl
  call-plugins (use_asm_postprocessor name) (h, w) = refl
  call-plugins (use_demodulator name) (h, w) = refl

  call_all-plugins :
      (cs : List HostCall) (s : PluginHost W D × W) → (call_all cs s).0.plugins ≡ s.0.plugins
  unfolding call_all
  call_all-plugins [] s = refl
  call_all-plugins (c ∷ cs) s = call_all-plugins cs (call c s) ∙ call-plugins c s

module _ {W D : Type 0} (f : Doubles D) where
  chain_calls-names :
      (mode : RadioMode) (cfg : ModeConfig D) (demod : Bytes) (h : PluginHost W D) (w : W)
      → names_of (call_all (chain_calls f mode cfg ++ (use_demodulator demod ∷ [])) (h, w)).0
        ≡ record (chain_names mode cfg) { demodulator_name = demod }
  unfolding call_all call chain_calls vdes_sketch_calls set_active_decoder set_active_demodulator
      set_active_postprocessor set_active_asm_postprocessor
  chain_calls-names mode cfg demod h w = elim (Bool-cases (has_ais_dual mode cfg)) [
    | inl dual ↦ rw dual refl
    | inr no_dual ↦ elim (Bool-cases (use_iq_recorder mode cfg)) [
      | inl recorder ↦ rw (no_dual, recorder) refl
      | inr no_recorder ↦ elim (Bool-cases (use_vdes_asm_sketch mode cfg)) [
        | inl sketch ↦ rw (no_dual, no_recorder, sketch) refl
        | inr no_sketch ↦ elim (Bool-cases (use_nfm_dsc_audio mode cfg)) [
          | inl dsc_chain ↦ rw (no_dual, no_recorder, no_sketch, dsc_chain) refl
          | inr gmsk_chain ↦ rw (no_dual, no_recorder, no_sketch, gmsk_chain) refl
        ]
      ]
    ]
  ]

  -- Whatever was selected before, `PushPluginConfig` leaves the four names that the table gives for
  -- the mode and its settings, and the plugins as they were.
  pub push_plugin_config-names :
      (mode : RadioMode) (cfg : ModeConfig D) (h : PluginHost W D) (w : W)
      → let h' = (call_all (push_plugin_config f mode cfg) (h, w)).0 in
        (names_of h' ≡ chain_names mode cfg) × (h'.plugins ≡ h.plugins)
  unfolding push_plugin_config
  push_plugin_config-names mode cfg h w =
      let later = chain_calls f mode cfg ++ (use_demodulator (demod_name mode cfg) ∷ []) in
      let s = call_all (common_calls f cfg) (h, w) in
      (
        ap (λ (r : PluginHost W D × W). names_of r.0)
              (call_all-append (common_calls f cfg) later (h, w))
            ∙ chain_calls-names mode cfg (demod_name mode cfg) (s.0) (s.1),
        call_all-plugins (push_plugin_config f mode cfg) (h, w),
      )

  -- `PushPluginConfig` leaves nothing of what was selected before: from any two hosts the same four names
  -- are selected behind it, each host keeping its plugins.
  pub push_plugin_config-forgets :
      (mode : RadioMode) (cfg : ModeConfig D) (h h' : PluginHost W D) (w w' : W)
      → let after = (call_all (push_plugin_config f mode cfg) (h, w)).0 in
        let after' = (call_all (push_plugin_config f mode cfg) (h', w')).0 in
        (names_of after ≡ names_of after')
        × (after.plugins ≡ h.plugins)
        × (after'.plugins ≡ h'.plugins)
  push_plugin_config-forgets mode cfg h h' w w' =
      let (names, kept) = push_plugin_config-names mode cfg h w in
      let (names', kept') = push_plugin_config-names mode cfg h' w' in
      (names ∙ sym names', kept, kept')
