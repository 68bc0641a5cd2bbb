-- ===== src/Worker/Lifecycle.antt =====
-- The calls of the manager on `ReceiverWorker` of backend/src/receiver_worker.cpp. A call leaves the
-- worker and what it did: its result, the error text, the calls on the plugin host and the events,
-- with the values that their texts print. The threads that `Start` makes are not modelled, and the
-- events of `PushPluginConfig` stand for themselves in its labels.
use multi_radio.Common.{
  ℕ, zero, suc, ◌+◌, Bool, true, false, ◌&&◌, Option, none, some, List, [], ◌∷◌, ◌++◌,
  if◌then◌else◌, ◌>>=◌, Bytes, codes,
}
use multi_radio.Types.Data.{nonneg, RadioMode, ModeConfig, ReceiverStatus}
use multi_radio.Types.Double.{Doubles}
use multi_radio.Audio.Ring.{RingBuffer, make}
use multi_radio.Worker.Config.{is_scan_range, normalize_mode_config}
use multi_radio.Worker.Channel.{RuntimeChannel, select_runtime_channel}
use multi_radio.Worker.ChainFlags.{ChainLabels, use_nfm_dsc_audio, demod_name, chain_labels}
use multi_radio.Worker.PluginConfig.{HostCall, param, push_plugin_config}

pub record ReceiverWorker (D : Type 0) : Type 0 where
  pub receiver_id : ℕ
  pub serial : Bytes
  pub running : Bool
  pub mode : RadioMode
  pub mode_config : ModeConfig D
  pub scan_channel_idx : ℕ
  pub last_error : Bytes
  pub audio_buffer : Option RingBuffer
  pub nfm_dsc_audio_chain_enabled : Bool
  pub plugin_config_generation : ℕ

pub data WorkerEvent (D : Type 0) : Type 0 where
  receiver_started receiver_stopped : WorkerEvent D
  mode_changed : RadioMode → WorkerEvent D
  mode_diag : RadioMode → Option (RuntimeChannel D) → WorkerEvent D
  plugin_cfg : ChainLabels → Bytes → WorkerEvent D
  runtime_chain : RadioMode → Option (RuntimeChannel D) → WorkerEvent D
  mode_config_updated : RadioMode → ModeConfig D → WorkerEvent D

-- What a call leaves beside the worker.
pub record Outcome (D : Type 0) : Type 0 where
  pub result : Bool
  pub error : Bytes
  pub host_calls : List HostCall
  pub events : List (WorkerEvent D)

abbrev pub audio_buffer_samples : ℕ
audio_buffer_samples = 131072

unfoldable pub stop : {D : Type 0} → ReceiverWorker D → ReceiverWorker D × Outcome D
stop w =
    if w.running
    then (
      record w { running = false; audio_buffer = none },
      record {
        result = true;
        error = [];
        host_calls = param (codes "recording_stop") (codes "1") ∷ [];
        events = receiver_stopped ∷ [];
      },
    )
    else (w, record { result = true; error = []; host_calls = []; events = [] })

unfoldable pub get_mode_config : {D : Type 0} → ReceiverWorker D → ModeConfig D
get_mode_config w = w.mode_config

unfoldable pub status : {D : Type 0} → ReceiverWorker D → ReceiverStatus D
status w = record {
  receiver_id = w.receiver_id;
  serial = w.serial;
  running = w.running;
  mode = w.mode;
  mode_config = w.mode_config;
  last_error = w.last_error;
}

module _ {D : Type 0} (f : Doubles D) where
  -- `PushPluginConfig`: what it changes in the worker, and its events.
  abbrev pub push_config : ReceiverWorker D → ReceiverWorker D
  push_config w = record w {
    nfm_dsc_audio_chain_enabled = use_nfm_dsc_audio w.mode w.mode_config;
    plugin_config_generation = w.plugin_config_generation + 1;
  }

  abbrev pub config_events : ReceiverWorker D → List (WorkerEvent D)
  config_events w =
      plugin_cfg (chain_labels w.mode w.mode_config) (demod_name w.mode w.mode_config)
      ∷ runtime_chain w.mode (select_runtime_channel f w.mode w.mode_config (nonneg 0))
      ∷ []

  unfoldable pub start : ReceiverWorker D → ReceiverWorker D × Outcome D
  start w =
      if w.running
      then (
        w,
        record {
          result = false;
          error = codes "receiver already running";
          host_calls = [];
          events = [];
        },
      )
      else (
        push_config (record w {
          running = true;
          last_error = [];
          audio_buffer = some (make audio_buffer_samples);
        }),
        record {
          result = true;
          error = [];
          host_calls = push_plugin_config f w.mode w.mode_config;
          events = config_events w ++ (receiver_started ∷ []);
        },
      )

  unfoldable pub set_mode : RadioMode → ReceiverWorker D → ReceiverWorker D × Outcome D
  set_mode mode w =
      let config = normalize_mode_config w.mode_config in
      (
        record w { mode = mode; mode_config = config },
        record {
          result = true;
          error = [];
          host_calls = [];
          events =
              mode_changed mode
              ∷ mode_diag mode (select_runtime_channel f mode config (nonneg 0))
              ∷ [];
        },
      )

  -- The loop over the frequencies of a range, on fuel; `none` means that the fuel ran out.
  unfoldable pub range_loop : ℕ → D → D → D → Option (List D)
  range_loop zero x limit step = none
  range_loop (suc fuel) x limit step =
      let rest = range_loop fuel (f.plus x step) limit step in
      if f.le x limit then elim rest [ none ↦ none | some xs ↦ some (x ∷ xs) ] else some []

  unfoldable pub range_frequencies : ℕ → ModeConfig D → Option (List D)
  unfolding range_loop
  range_frequencies fuel c =
      let zero_hz = f.literal (codes "0.0") in
      if f.lt zero_hz c.range_step_hz && f.lt c.range_start_hz c.range_end_hz
      then range_loop fuel c.range_start_hz
          (f.plus c.range_end_hz (f.times c.range_step_hz (f.literal (codes "0.01"))))
          c.range_step_hz
      else if f.lt zero_hz c.range_start_hz && f.eq c.range_start_hz c.range_end_hz
      then some (c.range_start_hz ∷ [])
      else some c.frequency_list_hz

  -- `none` where the loop of the range does not end within the fuel.
  unfoldable pub set_mode_config :
      ℕ → ModeConfig D → ReceiverWorker D → Option (ReceiverWorker D × Outcome D)
  set_mode_config fuel config w = do
    let normalized = normalize_mode_config config
    frequencies ←
        (if is_scan_range w.mode
          then range_frequencies fuel normalized
          else some normalized.frequency_list_hz)
    let stored = record normalized { frequency_list_hz = frequencies }
    let w1 = record w { mode_config = stored; scan_channel_idx = 0 }
    some (
      push_config w1,
      record {
        result = true;
        error = [];
        host_calls = push_plugin_config f w.mode stored;
        events = config_events w1 ++ (mode_config_updated w.mode stored ∷ []);
      },
    )
