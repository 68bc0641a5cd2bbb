-- ===== src/Tests/Plugins.antt =====
-- The theorems of the plugin host at concrete inputs: a demodulator that emits one message.
use multi_radio.Common.{
  ℕ, suc, ◌≡◌, refl, true, Option, none, some, List, [], ◌∷◌, arith, Bytes, codes,
}
use multi_radio.Types.Data.{ais, IqSampleBlock}
use multi_radio.Plugins.Host.{
  PluginMessage, Emission, demodulator, LoadedPlugin, PluginHost, set_enabled, switch_plugin,
  disable_plugin, set_active_demodulator,
}
use multi_radio.Plugins.Chain.{process_iq}
use multi_radio.Plugins.Total.{process_iq-total}
use multi_radio.Plugins.Select.{disable_plugin_idle}

abbrev one_emission : Emission ℕ
one_emission = record {
  signal_type = some (codes "AIS");
  payload = some (codes "4f");
  frequency_hz = 162000000;
  unix_ms = 1;
  normalized_kv_json = some (codes "{\"mmsi\":\"1\"}");
}

abbrev ais_plugin : LoadedPlugin ℕ ℕ
ais_plugin = record {
  info = record {
    plugin_name = codes "d";
    plugin_version = codes "1";
    api_version = 1;
    supported_signals = ais ∷ [];
    enabled = true;
    path = codes "d.so";
  };
  fn_process_iq = some (λ w iq pairs hz t. (suc w, one_emission ∷ []));
  fn_process_bits = none;
  fn_set_param = none;
  has_ctx = true;
  role = demodulator;
}

abbrev one_plugin : PluginHost ℕ ℕ
one_plugin = record {
  plugins = ais_plugin ∷ [];
  active_decoder_name = [];
  active_demodulator_name = codes "d";
  active_postprocessor_name = [];
  active_asm_postprocessor_name = [];
}

abbrev one_block : IqSampleBlock
one_block = record {
  interleaved_iq = 1 ∷ 2 ∷ [];
  sample_rate_hz = 2048000;
  center_frequency_hz = 162000000;
}

abbrev no_hex : Bytes → Option ℕ
no_hex s = none

process_iq-total_example :
    (r : ℕ × List (PluginMessage ℕ)) × (process_iq no_hex (λ hz. hz) one_plugin one_block 9 0
      ≡ some r)
process_iq-total_example = process_iq-total no_hex (λ hz. hz) one_plugin one_block 9 0

found : (disable_plugin (codes "d") one_plugin).0.1 ≡ true
unfolding switch_plugin set_enabled
found = refl

disable_plugin_idle_example :
    process_iq no_hex
      (λ hz. hz)
      (set_active_demodulator (codes "d") (disable_plugin (codes "d") one_plugin).1)
      one_block
      9
      0
    ≡ some (0, [])
disable_plugin_idle_example =
    disable_plugin_idle no_hex (λ hz. hz) one_plugin (codes "d") one_block 9 0 (omega arith) found
