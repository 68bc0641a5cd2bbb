-- ===== src/Tests/Tracker.antt =====
-- The theorems of the target tracker at concrete inputs: a ship that is new, and one that is stale.
use multi_radio.Common.{
  ℕ, ◌+◌, ◌≡◌, refl, ap, ◌≢◌, true, false, some, [], ◌∷◌, arith, if◌then◌else◌, length, is_empty,
  All, Any, codes, same, lookup,
}
use multi_radio.Types.Data.{ais, DecodedMessage}
use multi_radio.Types.Double.{Doubles}
use multi_radio.Tests.Data.{whole}
use multi_radio.Tracker.Target.{
  TrackedTarget, key_and_kind, field_str, field, parse_double, position_known,
}
use multi_radio.Tracker.Calls.{TargetTracker, update, entry_fresh, take_snapshot, target_or_new}
use multi_radio.Tracker.Snapshots.{take_snapshot-stable}
use multi_radio.Tracker.Updates.{update-entry, update-seen}

-- Numbers that are as long as their texts.
abbrev lengths : Doubles ℕ
lengths = record whole { strtod = λ s. some (length s) }

abbrev message : DecodedMessage ℕ
message = record {
  unix_ms = 5000;
  receiver_id = 0;
  signal_type = ais;
  frequency_hz = 162000000;
  payload = [];
  normalized_fields =
      (codes "mmsi", codes "265") ∷ (codes "lat", codes "59.5") ∷ (codes "lon", codes "18.25") ∷ [];
}

abbrev old_ship : TrackedTarget ℕ
old_ship = record {
  id = codes "211";
  label = codes "ANNA";
  target_kind = codes "SEA";
  lat = 1;
  lon = 2;
  sog_knots = 0;
  cog_degrees = 0;
  has_altitude = false;
  altitude_ft = 0;
  last_seen_ms = 10;
}

abbrev tracker : TargetTracker ℕ
tracker = record {
  air_stale_ms = 100;
  sea_stale_ms = 600;
  has_db = true;
  entries = (codes "211", old_ship) ∷ [];
  pending_removed = [];
}

named : is_empty (key_and_kind message).0 ≡ false
unfolding key_and_kind field_str lookup
named = refl

not_other : (key_and_kind message).0 ≢ codes "211"
unfolding key_and_kind field_str lookup
not_other e = ground (arith, ap (λ s. same s (codes "265")) e)

placed : position_known lengths message ≡ true
unfolding field parse_double field_str lookup
placed = refl

update-entry_example :
    (e : TrackedTarget ℕ) × (lookup
        (key_and_kind message).0
        (update lengths 0 message tracker).0.entries
      ≡ some e)
    × (e.id ≡ (key_and_kind message).0)
    × (is_empty e.label ≡ false)
    × (e.lat ≡ (
        if position_known lengths message
        then field lengths message (codes "lat")
        else (target_or_new lengths (lookup (key_and_kind message).0 tracker.entries)).lat))
    × (e.lon ≡ (
        if position_known lengths message
        then field lengths message (codes "lon")
        else (target_or_new lengths (lookup (key_and_kind message).0 tracker.entries)).lon))
    × (lookup (codes "211") (update lengths 0 message tracker).0.entries
        ≡ lookup (codes "211") tracker.entries)
update-entry_example = update-entry lengths 0 message tracker (codes "211") named not_other

update-seen_example :
    Any
      (λ e.
        (e.id ≡ (key_and_kind message).0)
        × (e.lat ≡ field lengths message (codes "lat"))
        × (e.lon ≡ field lengths message (codes "lon")))
      (take_snapshot lengths 5050 (update lengths 0 message tracker).0).1.targets
update-seen_example =
    update-seen lengths 0 5050 message tracker named (omega arith) placed (omega arith)
      (omega arith)

take_snapshot-stable_example :
    All
      (λ entry. entry_fresh 900 tracker entry ≡ true)
      (take_snapshot lengths 900 tracker).0.entries
    × (length (take_snapshot lengths 900 tracker).0.entries
          + length (take_snapshot lengths 900 tracker).1.removed_ids
        ≡ 1)
    × ((take_snapshot lengths 900 (take_snapshot lengths 900 tracker).0).0
        ≡ (take_snapshot lengths 900 tracker).0)
    × ((take_snapshot lengths 900 (take_snapshot lengths 900 tracker).0).1.targets
        ≡ (take_snapshot lengths 900 tracker).1.targets)
    × ((take_snapshot lengths 900 (take_snapshot lengths 900 tracker).0).1.removed_ids ≡ [])
take_snapshot-stable_example = take_snapshot-stable lengths 900 tracker
