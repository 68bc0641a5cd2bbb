-- ===== src/Services/Server.antt =====
-- The messages of the control service, its state and the hardware settings, of
-- backend/src/grpc_services.cpp.
use multi_radio.Common.{ℕ, Bool, true, Option, none, some, List, map, if◌then◌else◌, Bytes, codes}
use multi_radio.Types.Data.{SignalType, unknown, ais, adsb, dsc, Int32, ReceiverStatus, PluginInfo}
use multi_radio.Plugins.Host.{PluginHost}
use multi_radio.Worker.Lifecycle.{ReceiverWorker}
use multi_radio.TrackDatabase.Store.{Statement, TrackDatabase}
use multi_radio.Services.Messages.{ProtoModeConfig}
use multi_radio.Services.Convert.{to_proto, radio_mode_to_proto}

-- `v1::ReceiverInfo`.
pub record ReceiverInfo (D : Type 0) : Type 0 where
  pub receiver_id : ℕ
  pub serial : Bytes
  pub running : Bool
  pub mode : ℕ
  pub mode_config : ProtoModeConfig D
  pub last_error : Bytes

unfoldable pub fill_receiver_info : {D : Type 0} → ReceiverStatus D → ReceiverInfo D
fill_receiver_info s = record {
  receiver_id = s.receiver_id;
  serial = s.serial;
  running = s.running;
  mode = radio_mode_to_proto s.mode;
  mode_config = to_proto s.mode_config;
  last_error = s.last_error;
}

-- `v1::PluginInfo`, the signals as numbers.
pub record PluginMessageInfo : Type 0 where
  pub plugin_name : Bytes
  pub plugin_version : Bytes
  pub api_version : ℕ
  pub enabled : Bool
  pub path : Bytes
  pub supported_signals : List ℕ

unfoldable pub signal_type_to_proto : SignalType → ℕ
signal_type_to_proto ais = 1
signal_type_to_proto adsb = 2
signal_type_to_proto dsc = 3
signal_type_to_proto unknown = 0

unfoldable pub fill_plugin_info : PluginInfo → PluginMessageInfo
fill_plugin_info p = record {
  plugin_name = p.plugin_name;
  plugin_version = p.plugin_version;
  api_version = p.api_version;
  enabled = p.enabled;
  path = p.path;
  supported_signals = map signal_type_to_proto p.supported_signals;
}

pub record HardwareConfigCache : Type 0 where
  pub ppm_value : Int32
  pub loaded : Bool

-- What the handlers act on; the statements are those that the track database has stepped, the last
-- one first.
pub record Server (W D : Type 0) : Type 0 where
  pub workers : List (ReceiverWorker D)
  pub plugin_host : PluginHost W D
  pub hardware : HardwareConfigCache
  pub track_db : Option (TrackDatabase D)
  pub statements : List (Statement D)

pub data ControlRequest (D : Type 0) : Type 0 where
  start_call stop_call : ℕ → ControlRequest D
  mode_call : ℕ → ℕ → ControlRequest D
  config_call : ℕ → ProtoModeConfig D → ControlRequest D
  status_call : ℕ → ControlRequest D
  list_call plugins_call get_hardware_call clear_names_call : ControlRequest D
  enable_call disable_call : Bytes → ControlRequest D
  set_hardware_call : Int32 → ControlRequest D

-- The status of a call and its response.
pub data Reply (D : Type 0) : Type 0 where
  unauthenticated : Reply D
  not_found_status : Bytes → Reply D
  ok_error : Bool → Bytes → Reply D
  receiver : ReceiverInfo D → Reply D
  receivers : List (ReceiverInfo D) → Reply D
  plugins : List PluginMessageInfo → Reply D
  hardware_config : Int32 → Reply D
  names_cleared : Bool → Reply D

-- `file_ppm` is what the file has.
unfoldable pub get_ppm : Int32 → HardwareConfigCache → HardwareConfigCache
get_ppm file_ppm cache =
    if cache.loaded then cache else record { ppm_value = file_ppm; loaded = true }

-- `save` writes the file; its text is the error where it cannot.
unfoldable pub set_ppm :
    (Int32 → Option Bytes) → Int32 → HardwareConfigCache → HardwareConfigCache × Option Bytes
set_ppm save value cache = elim (save value) [
  | some err ↦ (cache, some err)
  | none ↦ (record { ppm_value = value; loaded = true }, none)
]

abbrev pub status_reply : {D : Type 0} → Option (ReceiverStatus D) → Reply D
status_reply none = not_found_status (codes "receiver not found")
status_reply (some st) = receiver (fill_receiver_info st)
