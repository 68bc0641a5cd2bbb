-- ===== src/Plugins/Chain.antt =====
-- `ProcessIq` and `EmitFromPlugin` of backend/src/plugin_host.cpp. What `sscanf` with "%02X" reads at
-- the start of a text is a parameter; the debug output is left out. `unix_ms` of `ProcessIq` is the
-- clock's and an argument here.
use multi_radio.Common.{
  ℕ, zero, suc, ◌*◌, ◌/◌, ◌%◌, ◌^◌, Bool, false, ◌&&◌, ◌||◌, Option, none, some, List, [], ◌∷◌,
  ◌++◌, ◌==◌, if◌then◌else◌, is_some, ◌>>=◌, length, is_empty, drop, Bytes, codes, same, insert,
}
use multi_radio.Types.Data.{IqSampleBlock}
use multi_radio.Plugins.Fields.{signal_type_from_plugin_string, read_fields}
use multi_radio.Plugins.Host.{
  PluginMessage, Emission, demodulator, ProcessBits, LoadedPlugin, PluginHost, has_name, stage_of,
}

-- `EmitCallbackState`; a function and its context are set together.
pub record EmitCallbackState (W D : Type 0) : Type 0 where
  pub decoder_fn : Option (ProcessBits W D)
  pub postproc_fn : Option (ProcessBits W D)
  pub asm_postproc_fn : Option (ProcessBits W D)

abbrev pub is_raw_bits : Bytes → Bool
is_raw_bits sig =
    same sig (codes "FSK_DATA")
    || (same sig (codes "GMSK_DATA")
        || (same sig (codes "GMSK_ASM_DATA")
            || (same sig (codes "VDES_ASM_DATA") || same sig (codes "VDES_BURST_DATA"))))

abbrev pub is_asm_marked : Option Bytes → Bool
is_asm_marked none = false
is_asm_marked (some sig) = same sig (codes "NRZI_ASM_DATA") || same sig (codes "AIS_MSG8_RAW")

abbrev pub text_of : Option Bytes → Bytes
text_of none = []
text_of (some s) = s

module _ (scan_hex : Bytes → Option ℕ) where
  -- The loop over the pairs of digits: `none` where one does not scan.
  unfoldable pub hex_loop : ℕ → Bytes → Option (List ℕ)
  hex_loop zero s = some []
  hex_loop (suc n) s =
      let rest = hex_loop n (drop 2 s) in
      elim (scan_hex s) [
        | none ↦ none
        | some val ↦ elim rest [ none ↦ none | some bytes ↦ some (val % 256 ∷ bytes) ]
      ]

  -- The bytes of a payload that the next stage is called with; `none` where it is not called.
  unfoldable pub raw_bytes : Option Bytes → Option (List ℕ)
  unfolding hex_loop
  raw_bytes none = none
  raw_bytes (some payload) =
      if 0 == length payload / 2 then none else hex_loop (length payload / 2) payload

abbrev pub bit_count : List ℕ → ℕ
bit_count bytes = length bytes * 8 % 2 ^ 32

-- The message that the callback gets; `none` if the fuel of its fields ran out.
unfoldable pub message_of : {D : Type 0} → Emission D → Option (PluginMessage D)
message_of e = do
  fields ← read_fields e.normalized_kv_json
  some (record {
    signal_type = signal_type_from_plugin_string e.signal_type;
    frequency_hz = e.frequency_hz;
    unix_ms = e.unix_ms;
    payload = text_of e.payload;
    normalized_fields =
        if is_empty (text_of e.signal_type)
        then fields
        else insert (codes "signal_type") (text_of e.signal_type) fields;
  })

module _ {W D : Type 0} where
  -- Emissions one after the other, with the memory passed on and the messages in order.
  unfoldable pub each :
      (W → Emission D → Option (W × List (PluginMessage D)))
      → W
      → List (Emission D)
      → Option (W × List (PluginMessage D))
  each handle w [] = some (w, [])
  each handle w (e ∷ es) = do
    (w1, ms) ← handle w e
    (w2, ms') ← each handle w1 es
    some (w2, ms ++ ms')

  abbrev pub is_demodulator : Bytes → LoadedPlugin W D → Bool
  is_demodulator name p = elim p.role [
    | demodulator ↦ p.info.enabled && (p.has_ctx && has_name name p)
    | _ ↦ false
  ]

  -- The state of the emissions of the demodulator.
  abbrev pub chain_state : PluginHost W D → EmitCallbackState W D
  chain_state h = record {
    decoder_fn = stage_of h.active_decoder_name h;
    postproc_fn = stage_of h.active_postprocessor_name h;
    asm_postproc_fn = stage_of h.active_asm_postprocessor_name h;
  }

module _ {W D : Type 0} (scan_hex : Bytes → Option ℕ) where
  -- The postprocessor selected for a signal type.
  abbrev pub selected_postproc : EmitCallbackState W D → Option Bytes → Option (ProcessBits W D)
  selected_postproc state sig =
      if is_asm_marked sig && is_some state.asm_postproc_fn
      then state.asm_postproc_fn
      else state.postproc_fn

  -- The stage that an emission goes to next, with its bytes and the state of the emissions that it
  -- makes there; `none` where the emission is delivered.
  unfoldable pub next_stage :
      EmitCallbackState W D → Emission D → Option (ProcessBits W D × List ℕ × EmitCallbackState W D)
  unfolding raw_bytes
  next_stage state e = elim state.decoder_fn [
    | some decode ↦ elim e.signal_type [
      | none ↦ none
      | some sig ↦ elim (raw_bytes scan_hex e.payload) [
        | none ↦ none
        | some bytes ↦
            if is_raw_bits sig
            then some (decode, bytes, record state { decoder_fn = none })
            else none
      ]
    ]
    | none ↦ elim (selected_postproc state e.signal_type) [
      | none ↦ none
      | some postproc ↦ elim (raw_bytes scan_hex e.payload) [
        | none ↦ none
        | some bytes ↦ some (
          postproc,
          bytes,
          record { decoder_fn = none; postproc_fn = none; asm_postproc_fn = none },
        )
      ]
    ]
  ]

  -- `EmitFromPlugin`, on fuel for the depth of the chain.
  unfoldable pub emit_from_plugin :
      ℕ → EmitCallbackState W D → W → Emission D → Option (W × List (PluginMessage D))
  emit_from_plugin zero state w e = none
  emit_from_plugin (suc fuel) state w e = elim (next_stage state e) [
    | none ↦ elim (message_of e) [ none ↦ none | some msg ↦ some (w, msg ∷ []) ]
    | some (stage, bytes, nested) ↦
        let called = stage w bytes (bit_count bytes) e.frequency_hz e.unix_ms e.signal_type in
        each (emit_from_plugin fuel nested) (called.0) (called.1)
  ]

  -- The loop over the plugins. The chain is three stages deep.
  unfoldable pub process_loop :
      Bytes
      → EmitCallbackState W D
      → IqSampleBlock
      → D
      → ℕ
      → List (LoadedPlugin W D)
      → W
      → Option (W × List (PluginMessage D))
  process_loop name state iq hz unix_ms [] w = some (w, [])
  process_loop name state iq hz unix_ms (p ∷ ps) w = elim p.fn_process_iq [
    | none ↦ process_loop name state iq hz unix_ms ps w
    | some process_iq ↦
        if is_demodulator name p
        then (do
          let called = process_iq w iq (length iq.interleaved_iq / 2 % 2 ^ 32) hz unix_ms
          (w1, ms) ← each (emit_from_plugin 3 state) (called.0) (called.1)
          (w2, ms') ← process_loop name state iq hz unix_ms ps w1
          some (w2, ms ++ ms'))
        else process_loop name state iq hz unix_ms ps w
  ]

  -- `centre` is the cast of a frequency to double.
  unfoldable pub process_iq :
      (ℕ → D) → PluginHost W D → IqSampleBlock → ℕ → W → Option (W × List (PluginMessage D))
  process_iq centre h iq unix_ms w =
      if is_empty iq.interleaved_iq
      then some (w, [])
      else process_loop h.active_demodulator_name (chain_state h) iq (centre iq.center_frequency_hz)
          unix_ms h.plugins w
