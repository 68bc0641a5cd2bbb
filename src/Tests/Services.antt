-- ===== src/Tests/Services.antt =====
-- The theorems of the services at concrete inputs: settings that are carried, and a refused call.
use multi_radio.Common.{ℕ, ◌≡◌, refl, inr, false, Option, none, some, [], ◌∷◌, arith, Bytes, codes}
use multi_radio.Types.Data.{scan_list, nonneg, Int32, ModeConfig}
use multi_radio.Tests.Data.{whole, two_channels}
use multi_radio.Tests.Worker.{stopped_worker}
use multi_radio.Services.Convert.{radio_mode_from_proto, radio_mode_to_proto, to_proto, from_proto}
use multi_radio.Services.Roundtrip.{IsCarried, to_proto-from_proto}
use multi_radio.Services.Server.{Server, Reply, set_hardware_call}
use multi_radio.Services.Control.{serve}

abbrev settings : ModeConfig ℕ
settings = record two_channels {
  gmsk_bt = 1;
  gmsk_modulation_index = 1;
  vdes_asm_pll_bw = 1;
  scan_list_locked_channel_index = nonneg 1;
}

settings-IsCarried : IsCarried whole settings
settings-IsCarried = record {
  gmsk_baud_rate_positive = omega arith;
  ppm_bit_duration_us_positive = omega arith;
  ppm_data_rate_bps_positive = omega arith;
  vdes_asm_bit_rate_bps_positive = omega arith;
  vdes_asm_candidate_bits_positive = omega arith;
  gmsk_bt_positive = refl;
  gmsk_modulation_index_positive = refl;
  vdes_asm_pll_bw_positive = refl;
  agc_bandwidth_known = inr refl;
  agc_level_known = inr refl;
  index_carried = (1, omega arith, refl);
}

to_proto-from_proto_example :
    (from_proto whole (to_proto settings) ≡ settings)
    × (radio_mode_from_proto (radio_mode_to_proto scan_list) ≡ scan_list)
to_proto-from_proto_example = to_proto-from_proto whole settings scan_list settings-IsCarried

abbrev server : Server ℕ ℕ
server = record {
  workers = stopped_worker ∷ [];
  plugin_host = record {
    plugins = [];
    active_demodulator_name = [];
    active_decoder_name = [];
    active_postprocessor_name = [];
    active_asm_postprocessor_name = [];
  };
  hardware = record { ppm_value = nonneg 0; loaded = false };
  track_db = none;
  statements = [];
}

abbrev saved : Int32 → Option Bytes
saved value = none

abbrev served : Bytes → Option (Server ℕ ℕ × Reply ℕ)
served token =
    serve whole saved (nonneg 7) 5 (some (codes "Bearer u")) token (set_hardware_call (nonneg 3))
      server
