-- ===== src/Plugins/Total.antt =====
-- The chain of `Plugins.Chain` ends: three stages are enough fuel for any plugins.
use multi_radio.Common.{
  ℕ, zero, suc, ◌+◌, ◌/◌, ◌%◌, ◌^◌, ◌<◌, ◌≡◌, refl, inl, inr, ◌||◌, Option, some, List, [], ◌∷◌,
  ◌++◌, arith, if◌then◌else◌, Bool-cases, Option-cases, is_some, length, is_empty, Bytes,
}
use multi_radio.Types.Data.{IqSampleBlock}
use multi_radio.Plugins.Fields.{read_fields-total}
use multi_radio.Plugins.Host.{PluginMessage, Emission, ProcessBits, LoadedPlugin, PluginHost}
use multi_radio.Plugins.Chain.{
  EmitCallbackState, bit_count, message_of, each, is_demodulator, next_stage, emit_from_plugin,
  process_loop, process_iq, chain_state,
}

message_of-total : {D : Type 0} (e : Emission D) → (m : PluginMessage D) × (message_of e ≡ some m)
unfolding message_of
message_of-total e =
    let (fields, done) = read_fields-total e.normalized_kv_json in rw (message_of, done) (_, refl)

module _ {W D : Type 0} where
  -- How many more stages an emission may go through.
  depth : EmitCallbackState W D → ℕ
  depth state =
      (if is_some state.decoder_fn then 1 else 0)
      + (if is_some state.postproc_fn || is_some state.asm_postproc_fn then 1 else 0)

  each-total :
      (handle : W → Emission D → Option (W × List (PluginMessage D)))
      → ((w : W) (e : Emission D) → (r : W × List (PluginMessage D)) × (handle w e ≡ some r))
      → (w : W) (es : List (Emission D))
      → (r : W × List (PluginMessage D)) × (each handle w es ≡ some r)
  unfolding each
  each-total handle total w [] = ((w, []), refl)
  each-total handle total w (e ∷ es) =
      let (r, now) = total w e in
      let (r', later) = each-total handle total (r.0) es in
      ((r'.0, r.1 ++ r'.1), rw (now, later) refl)

module _ {W D : Type 0} (scan_hex : Bytes → Option ℕ) where
  next_stage-depth :
      (state nested : EmitCallbackState W D) (e : Emission D) (stage : ProcessBits W D)
      (bytes : List ℕ)
      → next_stage scan_hex state e ≡ some (stage, bytes, nested)
      → depth nested < depth state
  unfolding next_stage depth
  next_stage-depth state nested e stage bytes h = ground (arith, h)

  emit-total :
      (fuel : ℕ) (state : EmitCallbackState W D) (w : W) (e : Emission D)
      → depth state < fuel
      → (r : W × List (PluginMessage D)) × (emit_from_plugin scan_hex fuel state w e ≡ some r)
  unfolding emit_from_plugin
  emit-total zero state w e h = absurd (omega arith)
  emit-total (suc fuel) state w e h = elim (Option-cases (next_stage scan_hex state e)) [
    | inl last ↦
        let (m, done) = message_of-total e in ((w, m ∷ []), rw (emit_from_plugin, last, done) refl)
    | inr ((stage, bytes, nested), goes) ↦
        let shorter : depth nested < fuel =
          omega (arith, next_stage-depth state nested e stage bytes goes) in
        let called = stage w bytes (bit_count bytes) e.frequency_hz e.unix_ms e.signal_type in
        let (r, done) =
          each-total (emit_from_plugin scan_hex fuel nested)
            (λ w' e'. emit-total fuel nested w' e' shorter) (called.0) (called.1) in
        (r, rw (emit_from_plugin, goes) done)
  ]

  depth_small : (state : EmitCallbackState W D) → depth state < 3
  unfolding depth
  depth_small state = ground arith

  process_loop-total :
      (name : Bytes) (state : EmitCallbackState W D) (iq : IqSampleBlock) (hz : D) (unix_ms : ℕ)
      (ps : List (LoadedPlugin W D)) (w : W)
      → (r : W × List (PluginMessage D)) × (process_loop scan_hex name state iq hz unix_ms ps w
          ≡ some r)
  unfolding process_loop
  process_loop-total name state iq hz unix_ms [] w = ((w, []), refl)
  process_loop-total name state iq hz unix_ms (p ∷ ps) w = elim (Option-cases p.fn_process_iq) [
    | inl missing ↦
        let (r, done) = process_loop-total name state iq hz unix_ms ps w in (r, rw missing done)
    | inr (f, exported) ↦ elim (Bool-cases (is_demodulator name p)) [
      | inl chosen ↦
          let called = f w iq (length iq.interleaved_iq / 2 % 2 ^ 32) hz unix_ms in
          let (r, now) =
            each-total (emit_from_plugin scan_hex 3 state)
              (λ w' e. emit-total 3 state w' e (depth_small state)) (called.0) (called.1) in
          let (r', later) = process_loop-total name state iq hz unix_ms ps (r.0) in
          ((r'.0, r.1 ++ r'.1), rw (exported, chosen, now, later) refl)
      | inr other ↦
          let (r, done) = process_loop-total name state iq hz unix_ms ps w in
          (r, rw (exported, other) done)
    ]
  ]

  -- `ProcessIq` ends with some messages on every block, whatever the plugins emit and whichever are
  -- selected: an emission goes through at most a decoder and a postprocessor.
  pub process_iq-total :
      (centre : ℕ → D) (h : PluginHost W D) (iq : IqSampleBlock) (unix_ms : ℕ) (w : W)
      → (r : W × List (PluginMessage D)) × (process_iq scan_hex centre h iq unix_ms w ≡ some r)
  unfolding process_iq
  process_iq-total centre h iq unix_ms w = elim (Bool-cases (is_empty iq.interleaved_iq)) [
    | inl empty ↦ ((w, []), rw empty refl)
    | inr full ↦
        let (r, done) =
          process_loop-total h.active_demodulator_name (chain_state h) iq
            (centre iq.center_frequency_hz) unix_ms h.plugins w in
        (r, rw full done)
  ]
