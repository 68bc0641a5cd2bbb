-- ===== src/Tests/Worker.antt =====
-- The theorems of the worker at concrete inputs.
use multi_radio.Common.{
  ℕ, zero, suc, ◌+◌, ◌%◌, ◌≤◌, ◌<◌, ◌≡◌, refl, ◌⊎◌, inl, inr, true, false, none, some, List, [],
  arith, get_elem?, codes,
}
use multi_radio.Types.Data.{neg, scan_list, ScanListChannel}
use multi_radio.Tests.Data.{whole, two_channels, channel_at}
use multi_radio.Worker.Config.{normalize_mode_config}
use multi_radio.Worker.Channel.{RuntimeChannel, squelch_of, select_runtime_channel, select_in_range}
use multi_radio.Worker.Scanner.{
  Scan, ScanEvent, ms, start_scan, locked_target, scan_list_round, opened, signal_above,
}
use multi_radio.Worker.ScannerSafety.{InRange, scan_list_round-InRange}
use multi_radio.Worker.ScannerLiveness.{IsSilent, sweep, sweep_round_robin}
use multi_radio.Worker.ScannerSquelch.{IsGated, IsNormal, scan_list_round-IsGated}
use multi_radio.Worker.PluginConfig.{call_all, push_plugin_config}
use multi_radio.Worker.ChainNames.{names_of, push_plugin_config-forgets}
use multi_radio.Worker.Lifecycle.{
  ReceiverWorker, Outcome, stop, start, range_frequencies, set_mode_config,
}
use multi_radio.Worker.LifecycleLaws.{IsSound, start-stop, set_mode_config-InRange}
use multi_radio.Plugins.Host.{PluginHost}

select_in_range_example :
    (ch : RuntimeChannel ℕ) × (select_runtime_channel whole scan_list two_channels (neg 0)
      ≡ some ch)
    × ((i : ℕ) → ch.index ≡ some i → i < 2)
select_in_range_example = select_in_range whole scan_list two_channels (neg 0)

scan_list_round-InRange_example :
    (q : Scan × List (ScanEvent ℕ)) × (scan_list_round whole two_channels 3 none
        (ms 600)
        (start_scan 0 1)
      ≡ some q)
    × InRange two_channels (q.0)
scan_list_round-InRange_example =
    scan_list_round-InRange whole two_channels 3 none (ms 600) (start_scan 0 1) (omega arith)

either_channel :
    (i : ℕ) (ch : ScanListChannel ℕ)
    → get_elem? two_channels.scan_list_channels i ≡ some ch
    → (ch ≡ channel_at 100) ⊎ (ch ≡ channel_at 200)
either_channel zero ch e = inl (ground (arith, e))
either_channel (suc zero) ch e = inr (ground (arith, e))
either_channel (suc (suc i)) ch e = absurd (ground (arith, e))

two_channels-IsSilent : IsSilent whole two_channels 3 500
unfolding locked_target squelch_of
two_channels-IsSilent = record {
  several = omega arith;
  unlocked = refl;
  passes =
      λ i ch e. elim (either_channel i ch e) [ inl h ↦ rw h (inr refl) | inr h ↦ rw h (inr refl) ];
  short = λ i ch e. elim (either_channel i ch e) [
    | inl h ↦ rw h (omega arith)
    | inr h ↦ rw h (omega arith)
  ];
  checked = omega arith;
}

sweep_round_robin_example :
    (s' : Scan) × (sweep whole two_channels 3 none 500 3 (0 + ms 500) (start_scan 0 1) ≡ some s')
    × (s'.channel_idx ≡ (1 + 3) % 2)
sweep_round_robin_example =
    sweep_round_robin whole two_channels 3 none 500 3 0 1 two_channels-IsSilent (omega arith)

two_channels-IsNormal : IsNormal whole two_channels
unfolding locked_target
two_channels-IsNormal = record {
  no_monitor = refl;
  unlocked = refl;
  no_bypass = λ i ch e. elim (either_channel i ch e) [ inl h ↦ rw h refl | inr h ↦ rw h refl ];
}

scan_list_round-IsGated_example :
    (q : Scan × List (ScanEvent ℕ)) × (scan_list_round whole two_channels 20 none
        (ms 600)
        (start_scan 0 1)
      ≡ some q)
    × IsGated (q.0)
    × (0 ≤ ms 600
        → signal_above whole two_channels (channel_at 200) 20 ≡ true
        → (q.0.state ≡ opened) × (q.0.channel_idx ≡ 1))
scan_list_round-IsGated_example =
    scan_list_round-IsGated whole two_channels 20 none (ms 600) (start_scan 0 1) (channel_at 200)
      two_channels-IsNormal refl refl

abbrev no_plugins : PluginHost ℕ ℕ
no_plugins = record {
  plugins = [];
  active_decoder_name = codes "old";
  active_demodulator_name = [];
  active_postprocessor_name = [];
  active_asm_postprocessor_name = codes "old";
}

abbrev stale_plugins : PluginHost ℕ ℕ
stale_plugins = record no_plugins { active_asm_postprocessor_name = codes "asm_decoder" }

push_plugin_config-forgets_example :
    let h = (call_all (push_plugin_config whole scan_list two_channels) (no_plugins, 0)).0 in
    let h' = (call_all (push_plugin_config whole scan_list two_channels) (stale_plugins, 0)).0 in
    (names_of h ≡ names_of h') × (h.plugins ≡ []) × (h'.plugins ≡ [])
push_plugin_config-forgets_example =
    push_plugin_config-forgets whole scan_list two_channels no_plugins stale_plugins 0 0

abbrev pub stopped_worker : ReceiverWorker ℕ
stopped_worker = record {
  receiver_id = 1;
  serial = codes "a";
  running = false;
  mode = scan_list;
  mode_config = two_channels;
  scan_channel_idx = 7;
  last_error = [];
  audio_buffer = none;
  nfm_dsc_audio_chain_enabled = false;
  plugin_config_generation = 0;
}

stopped_worker-IsSound : IsSound stopped_worker
stopped_worker-IsSound = refl

start-stop_example :
    ((start whole stopped_worker).1.result ≡ true)
    × ((start whole stopped_worker).0.running ≡ true)
    × IsSound (start whole stopped_worker).0
    × ((stop stopped_worker).1.result ≡ true)
    × ((stop stopped_worker).0.running ≡ false)
    × IsSound (stop stopped_worker).0
    × ((start whole (start whole stopped_worker).0).0 ≡ (start whole stopped_worker).0)
    × ((start whole (start whole stopped_worker).0).1.result ≡ false)
    × ((start whole (start whole stopped_worker).0).1.events ≡ [])
    × ((start whole (start whole stopped_worker).0).1.host_calls ≡ [])
    × ((stop (stop stopped_worker).0).0 ≡ (stop stopped_worker).0)
    × ((stop (stop stopped_worker).0).1.events ≡ [])
    × ((stop (stop stopped_worker).0).1.host_calls ≡ [])
start-stop_example = start-stop whole stopped_worker stopped_worker-IsSound

nothing_listed : range_frequencies whole 1 (normalize_mode_config two_channels) ≡ some []
unfolding range_frequencies normalize_mode_config
nothing_listed = refl

set_mode_config-InRange_example :
    (r : ReceiverWorker ℕ × Outcome ℕ) × (set_mode_config whole 1 two_channels stopped_worker
      ≡ some r)
    × (r.1.result ≡ true)
    × InRange r.0.mode_config (start_scan 5 r.0.scan_channel_idx)
    × (r.0.running ≡ false)
    × (r.0.audio_buffer ≡ none)
set_mode_config-InRange_example =
    set_mode_config-InRange whole 1 5 two_channels stopped_worker [] nothing_listed (omega arith)
