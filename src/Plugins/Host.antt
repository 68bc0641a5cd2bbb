-- ===== src/Plugins/Host.antt =====
-- The plugins of `PluginHost` in backend/src/plugin_host.cpp and the names selected. A function of
-- a plugin with its context is a function on `W`, the memory of all plugins: it leaves a new memory
-- and the emissions that it made, in order. The calls that an emission makes come after it here.
use multi_radio.Common.{
  ℕ, Bool, true, false, ◌&&◌, Option, none, some, List, [], ◌∷◌, ◌++◌, map, if◌then◌else◌, is_empty,
  Bytes, codes, same,
}
use multi_radio.Types.Data.{SignalType, IqSampleBlock, PluginInfo}

pub record PluginMessage (D : Type 0) : Type 0 where
  pub signal_type : SignalType
  pub frequency_hz : D
  pub unix_ms : ℕ
  pub payload : Bytes
  pub normalized_fields : List (Bytes × Bytes)

-- The arguments of one call of the emit function; a null pointer is `none`.
pub record Emission (D : Type 0) : Type 0 where
  pub signal_type : Option Bytes
  pub payload : Option Bytes
  pub frequency_hz : D
  pub unix_ms : ℕ
  pub normalized_kv_json : Option Bytes

pub data PluginRole : Type 0 where
  demodulator decoder postprocessing : PluginRole

module _ (W D : Type 0) where
  -- `FnProcessIq`: the block, the number of pairs, the centre frequency and the time.
  abbrev pub ProcessIq : Type 0
  ProcessIq = W → IqSampleBlock → ℕ → D → ℕ → W × List (Emission D)

  -- `FnProcessBits`: the bytes, the number of bits, the frequency, the time and the signal type.
  abbrev pub ProcessBits : Type 0
  ProcessBits = W → List ℕ → ℕ → D → ℕ → Option Bytes → W × List (Emission D)

  -- A function is `none` where the plugin does not export it.
  pub record LoadedPlugin : Type 0 where
    pub info : PluginInfo
    pub fn_process_iq : Option ProcessIq
    pub fn_process_bits : Option ProcessBits
    pub fn_set_param : Option (W → Bytes → Bytes → W)
    pub has_ctx : Bool
    pub role : PluginRole

  pub record PluginHost : Type 0 where
    pub plugins : List LoadedPlugin
    pub active_decoder_name : Bytes
    pub active_demodulator_name : Bytes
    pub active_postprocessor_name : Bytes
    pub active_asm_postprocessor_name : Bytes

module _ {W D : Type 0} where
  abbrev pub has_name : Bytes → LoadedPlugin W D → Bool
  has_name name p = same p.info.plugin_name name

  unfoldable pub list_plugins : PluginHost W D → List PluginInfo
  list_plugins h = map (λ p. p.info) h.plugins

  -- `FindPluginByName` and the write of its flag: `none` where no plugin has the name.
  unfoldable pub set_enabled :
      Bool → Bytes → List (LoadedPlugin W D) → Option (List (LoadedPlugin W D))
  set_enabled enabled name [] = none
  set_enabled enabled name (p ∷ ps) =
      let rest = set_enabled enabled name ps in
      if has_name name p
      then some (record p { info = record p.info { enabled = enabled } } ∷ ps)
      else elim rest [ none ↦ none | some ps' ↦ some (p ∷ ps') ]

  -- `EnablePlugin` and `DisablePlugin`: the error text, the result and the host after the call.
  unfoldable pub switch_plugin : Bool → Bytes → PluginHost W D → (Bytes × Bool) × PluginHost W D
  unfolding set_enabled
  switch_plugin enabled name h = elim (set_enabled enabled name h.plugins) [
    | none ↦ ((codes "Plugin not found: " ++ name, false), h)
    | some ps ↦ (([], true), record h { plugins = ps })
  ]

  abbrev pub enable_plugin : Bytes → PluginHost W D → (Bytes × Bool) × PluginHost W D
  enable_plugin = switch_plugin true

  abbrev pub disable_plugin : Bytes → PluginHost W D → (Bytes × Bool) × PluginHost W D
  disable_plugin = switch_plugin false

  unfoldable pub set_active_decoder : Bytes → PluginHost W D → PluginHost W D
  set_active_decoder name h = record h { active_decoder_name = name }

  unfoldable pub set_active_demodulator : Bytes → PluginHost W D → PluginHost W D
  set_active_demodulator name h = record h { active_demodulator_name = name }

  unfoldable pub set_active_postprocessor : Bytes → PluginHost W D → PluginHost W D
  set_active_postprocessor name h = record h { active_postprocessor_name = name }

  unfoldable pub set_active_asm_postprocessor : Bytes → PluginHost W D → PluginHost W D
  set_active_asm_postprocessor name h = record h { active_asm_postprocessor_name = name }

  -- `SetParam` offers the parameter to every plugin.
  unfoldable pub set_param : Bytes → Bytes → List (LoadedPlugin W D) → W → W
  set_param key value [] w = w
  set_param key value (p ∷ ps) w =
      let w' : W = elim p.fn_set_param [
        | none ↦ w
        | some f ↦ if p.has_ctx then f w key value else w
      ] in
      set_param key value ps w'

  -- The search of `ProcessIq` for the plugin of a stage.
  unfoldable pub find_stage : Bytes → List (LoadedPlugin W D) → Option (ProcessBits W D)
  find_stage name [] = none
  find_stage name (p ∷ ps) =
      let rest = find_stage name ps in
      if p.info.enabled && (has_name name p && p.has_ctx)
      then elim p.fn_process_bits [ none ↦ rest | some f ↦ some f ]
      else rest

  abbrev pub stage_of : Bytes → PluginHost W D → Option (ProcessBits W D)
  stage_of name h = if is_empty name then none else find_stage name h.plugins
