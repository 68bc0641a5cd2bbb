-- ===== src/Services/Control.antt =====
-- The handlers of `RadioControlServiceImpl` in backend/src/grpc_services.cpp that go to the receiver
-- manager, the plugin host, the hardware settings and the track database. `metadata` is the authorization header of the call.
use multi_radio.Common.{
  ℕ, Bool, true, false, Option, none, some, List, [], ◌++◌, map, if◌then◌else◌, ◌>>=◌, Bytes,
}
use multi_radio.Types.Data.{Int32}
use multi_radio.Types.Double.{Doubles}
use multi_radio.Auth.{validate_bearer_token}
use multi_radio.Plugins.Host.{PluginHost, list_plugins, enable_plugin, disable_plugin}
use multi_radio.Worker.Lifecycle.{ReceiverWorker, Outcome, set_mode as worker_set_mode}
use multi_radio.Manager.Calls.{
  start_receiver, stop_receiver, set_mode, set_mode_config, get_receiver_status, list_receivers,
  apply_hardware_ppm,
}
use multi_radio.TrackDatabase.Store.{TrackDatabase, clear_entities}
use multi_radio.Services.Convert.{from_proto, radio_mode_from_proto}
use multi_radio.Services.Server.{
  fill_receiver_info, fill_plugin_info, HardwareConfigCache, Server, ControlRequest, start_call,
  stop_call, mode_call, config_call, status_call, list_call, plugins_call, get_hardware_call,
  enable_call, disable_call, set_hardware_call, clear_names_call, Reply, names_cleared,
  unauthenticated, ok_error, receivers, plugins, hardware_config, get_ppm, set_ppm, status_reply,
}

-- The calls that take settings run a loop over the range of a receiver, which takes fuel.
abbrev pub takes_settings : {D : Type 0} → ControlRequest D → Bool
takes_settings (config_call id config) = true
takes_settings (set_hardware_call value) = true
takes_settings _ = false

module _ {W D : Type 0} (f : Doubles D) (save : Int32 → Option Bytes) (file_ppm : Int32) where
  -- `set_ok` and `set_error` of a call of the manager.
  abbrev pub reply_of :
      Server W D → Option (List (ReceiverWorker D) × Outcome D) → Option (Server W D × Reply D)
  reply_of s none = none
  reply_of s (some (ws, o)) = some (record s { workers = ws }, ok_error o.result o.error)

  -- `set_ok` and `set_error` of a call of the plugin host.
  abbrev pub switch_reply : Server W D → (Bytes × Bool) × PluginHost W D → Server W D × Reply D
  switch_reply s ((err, ok), host) = (record s { plugin_host = host }, ok_error ok err)

  -- The value that was saved goes to all receivers.
  abbrev pub after_set :
      ℕ → Int32 → Server W D → HardwareConfigCache × Option Bytes → Option (Server W D × Reply D)
  after_set fuel value s (cache, some err) =
      some (record s { hardware = cache }, ok_error false err)
  after_set fuel value s (cache, none) = do
    ws ← apply_hardware_ppm f fuel value s.workers
    some (record s { hardware = cache; workers = ws }, ok_error true [])

  -- `if (track_db_) track_db_->ClearEntities();`.
  abbrev pub after_clear : Server W D → Option (TrackDatabase D) → Server W D
  after_clear s none = s
  after_clear s (some db) =
      let (cleared, stepped) = clear_entities db in
      record s { track_db = some cleared; statements = stepped ++ s.statements }

  -- A handler behind its test of the token.
  unfoldable pub authenticated : ℕ → ControlRequest D → Server W D → Option (Server W D × Reply D)
  authenticated fuel (start_call id) s = reply_of s (start_receiver f id s.workers)
  authenticated fuel (stop_call id) s = reply_of s (stop_receiver f id s.workers)
  authenticated fuel (mode_call id mode) s =
      reply_of s (set_mode f id (radio_mode_from_proto mode) s.workers)
  authenticated fuel (config_call id config) s =
      reply_of s (set_mode_config f fuel id (from_proto f config) s.workers)
  authenticated fuel (status_call id) s = some (s, status_reply (get_receiver_status id s.workers))
  authenticated fuel list_call s =
      some (s, receivers (map fill_receiver_info (list_receivers s.workers)))
  authenticated fuel plugins_call s =
      some (s, plugins (map fill_plugin_info (list_plugins s.plugin_host)))
  authenticated fuel (enable_call name) s = some (switch_reply s (enable_plugin name s.plugin_host))
  authenticated fuel (disable_call name) s =
      some (switch_reply s (disable_plugin name s.plugin_host))
  authenticated fuel (set_hardware_call value) s =
      after_set fuel value s (set_ppm save value s.hardware)
  authenticated fuel get_hardware_call s =
      let cache = get_ppm file_ppm s.hardware in
      some (record s { hardware = cache }, hardware_config cache.ppm_value)
  authenticated fuel clear_names_call s = some (after_clear s s.track_db, names_cleared true)

  unfoldable pub serve :
      ℕ → Option Bytes → Bytes → ControlRequest D → Server W D → Option (Server W D × Reply D)
  serve fuel metadata auth_token q s =
      if validate_bearer_token metadata auth_token
      then authenticated fuel q s
      else some (s, unauthenticated)

  abbrev pub is_refusal : Option (Server W D × Reply D) → Bool
  is_refusal (some (s, unauthenticated)) = true
  is_refusal _ = false
