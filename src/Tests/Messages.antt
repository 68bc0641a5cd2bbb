-- ===== src/Tests/Messages.antt =====
-- The theorems about the messages of the plugins at concrete inputs.
use multi_radio.Common.{ℕ, ◌+◌, ◌≡◌, ◌≤◌, true, some, [], ◌∷◌, ◌++◌, arith, if◌then◌else◌, codes}
use multi_radio.Types.Data.{dsc, ais, DecodedMessage}
use multi_radio.Plugins.Host.{PluginMessage}
use multi_radio.Tracker.Calls.{TargetTracker}
use multi_radio.Worker.DscRate.{start_dsc_rate, allow_dsc_message, dsc_passed, IsWithin}
use multi_radio.Worker.DscRateLaws.{dsc_passed-at_most_six}
use multi_radio.Worker.Messages.{DecodePath, receive_message}
use multi_radio.Worker.MessageLaws.{IsPublished, receive_message-published}
use multi_radio.Tests.Data.{whole}
use multi_radio.Tests.Storage.{no_distance, difference, empty_database}

abbrev distress : ℕ → PluginMessage ℕ
distress ms = record {
  signal_type = dsc;
  frequency_hz = 2187;
  unix_ms = ms;
  payload = codes "70";
  normalized_fields = [];
}

distress-IsWithin : IsWithin 1000 2000 (distress 1100 ∷ distress 1500 ∷ [])
unfolding IsWithin
distress-IsWithin = (omega arith, omega arith, (omega arith, omega arith, tt))

dsc_passed-at_most_six_example :
    dsc_passed (distress 1100 ∷ distress 1500 ∷ []) start_dsc_rate + start_dsc_rate.window_count ≤ 6
unfolding start_dsc_rate
dsc_passed-at_most_six_example =
    dsc_passed-at_most_six (distress 1100 ∷ distress 1500 ∷ []) start_dsc_rate 1000 2000
      (omega arith) (omega arith) (omega arith) distress-IsWithin

abbrev ship : PluginMessage ℕ
ship = record {
  signal_type = ais;
  frequency_hz = 162;
  unix_ms = 5000;
  payload = [];
  normalized_fields =
      (codes "mmsi", codes "265") ∷ (codes "lat", codes "59.5") ∷ (codes "lon", codes "18.25") ∷ [];
}

abbrev no_targets : TargetTracker ℕ
no_targets = record {
  air_stale_ms = 100;
  sea_stale_ms = 600;
  has_db = true;
  entries = [];
  pending_removed = [];
}

abbrev new_path : DecodePath ℕ
new_path = record {
  rate = start_dsc_rate;
  track_db = empty_database;
  statements = [];
  tracker = no_targets;
  published = [];
  events = [];
  publish_window_start_ms = 0;
  publish_total = 0;
  counts_by_type = λ t. 0;
}

receive_message-published_example :
    (dm : DecodedMessage ℕ) × IsPublished 1 ship dm
    × ((receive_message whole no_distance difference
          (λ s. some 7)
          9000
          1
          162
          ship
          new_path).published
        ≡ new_path.published ++ (if (allow_dsc_message ship new_path.rate).0 then dm ∷ [] else []))
receive_message-published_example =
    receive_message-published whole no_distance difference (λ s. some 7) 9000 1 162 ship new_path
