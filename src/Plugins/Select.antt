-- ===== src/Plugins/Select.antt =====
-- Which plugins `ProcessIq` of backend/src/plugin_host.cpp calls, after a plugin was switched.
use multi_radio.Common.{
  ℕ, suc, ◌≤◌, ◌≡◌, refl, false, Option, some, List, [], ◌∷◌, arith, if◌then◌else◌, Bytes, inl, inr,
  true, Bool-cases, Option-cases, is_empty,
}
use multi_radio.Types.Data.{IqSampleBlock}
use multi_radio.Plugins.Host.{
  LoadedPlugin, has_name, set_enabled, PluginHost, switch_plugin, disable_plugin,
  set_active_demodulator,
}
use multi_radio.Plugins.Chain.{EmitCallbackState, process_loop, process_iq, chain_state}

module _ {W D : Type 0} where
  -- How many plugins have the name.
  abbrev pub named : Bytes → List (LoadedPlugin W D) → ℕ
  named name [] = 0
  named name (p ∷ ps) = if has_name name p then suc (named name ps) else named name ps

module _ {W D : Type 0} (scan_hex : Bytes → Option ℕ) where
  unnamed-idle :
      (name : Bytes) (state : EmitCallbackState W D) (iq : IqSampleBlock) (hz : D) (unix_ms : ℕ)
      (ps : List (LoadedPlugin W D)) (w : W)
      → named name ps ≡ 0
      → process_loop scan_hex name state iq hz unix_ms ps w ≡ some (w, [])
  unfolding process_loop
  unnamed-idle name state iq hz unix_ms [] w h = refl
  unnamed-idle name state iq hz unix_ms (p ∷ ps) w h =
      let later = unnamed-idle name state iq hz unix_ms ps w (ground (arith, h)) in
      ground (arith, later, h)

  disabled-idle :
      (name : Bytes) (state : EmitCallbackState W D) (iq : IqSampleBlock) (hz : D) (unix_ms : ℕ)
      (ps ps' : List (LoadedPlugin W D)) (w : W)
      → named name ps ≤ 1
      → set_enabled false name ps ≡ some ps'
      → process_loop scan_hex name state iq hz unix_ms ps' w ≡ some (w, [])
  unfolding process_loop set_enabled
  disabled-idle name state iq hz unix_ms [] ps' w single h = cc
  disabled-idle name state iq hz unix_ms (p ∷ ps) ps' w single h =
      elim (Bool-cases (has_name name p)) [
        | inl found ↦
            let idle = unnamed-idle name state iq hz unix_ms ps w (ground (arith, single, found)) in
            ground (arith, h, found, idle)
        | inr other ↦ elim (Option-cases (set_enabled false name ps)) [
          | inl missing ↦ ground (arith, h, other, missing)
          | inr (qs, e) ↦
              let idle =
                disabled-idle name state iq hz unix_ms ps qs w (ground (arith, single, other)) e in
              ground (arith, h, other, e, idle)
        ]
      ]

  -- Once `DisablePlugin` has found the one plugin of a name, `ProcessIq` with that demodulator
  -- selected calls no plugin and delivers nothing, whatever the block and the other selections.
  pub disable_plugin_idle :
      (centre : ℕ → D) (h : PluginHost W D) (name : Bytes) (iq : IqSampleBlock) (unix_ms : ℕ)
      (w : W)
      → named name h.plugins ≤ 1
      → (disable_plugin name h).0.1 ≡ true
      → process_iq scan_hex centre
          (set_active_demodulator name (disable_plugin name h).1)
          iq
          unix_ms
          w
        ≡ some (w, [])
  unfolding process_iq switch_plugin set_active_demodulator
  disable_plugin_idle centre h name iq unix_ms w single ok =
      elim (Option-cases (set_enabled false name h.plugins)) [
        | inl missing ↦ ground (arith, ok, missing)
        | inr (qs, e) ↦
            let idle =
              disabled-idle name (chain_state (record h { plugins = qs })) iq
                (centre iq.center_frequency_hz) unix_ms h.plugins qs w single e in
            elim (Bool-cases (is_empty iq.interleaved_iq)) [
              | inl empty ↦ rw empty refl
              | inr full ↦ rw (switch_plugin, full, e) idle
            ]
      ]
