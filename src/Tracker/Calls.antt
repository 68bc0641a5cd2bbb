-- ===== src/Tracker/Calls.antt =====
-- `TargetTracker` of backend/src/target_tracker.cpp. Each call holds the lock for the whole of its
-- body. The map of the entries is a table; the calls on the track database are handed out. `now` is
-- the clock.
use multi_radio.Common.{
  ℕ, ◌-◌, Bool, not, ◌&&◌, ◌||◌, Option, none, some, List, [], ◌∷◌, ◌++◌, map, ltb, ◌==◌,
  if◌then◌else◌, is_empty, keep, Bytes, codes, same, lookup, insert,
}
use multi_radio.Types.Data.{DecodedMessage}
use multi_radio.Types.Double.{Doubles, zero_of}
use multi_radio.Tracker.Target.{
  TrackedTarget, key_and_kind, field_str, field, or_else, new_target, updated_target,
  position_known,
}

pub record TargetTracker (D : Type 0) : Type 0 where
  pub air_stale_ms : ℕ
  pub sea_stale_ms : ℕ
  pub has_db : Bool
  pub entries : List (Bytes × TrackedTarget D)
  pub pending_removed : List Bytes

pub data TrackCall (D : Type 0) : Type 0 where
  upsert_entity : Bytes → Bytes → Bytes → Bytes → ℕ → TrackCall D
  record_position : Bytes → ℕ → D → D → Option D → Option D → Option D → Bytes → TrackCall D

pub record RadarSnapshot (D : Type 0) : Type 0 where
  pub targets : List (TrackedTarget D)
  pub removed_ids : List Bytes
  pub snapshot_ms : ℕ

module _ {D : Type 0} (f : Doubles D) where
  abbrev pub target_or_new : Option (TrackedTarget D) → TrackedTarget D
  target_or_new none = new_target f
  target_or_new (some e) = e

  -- What is stored of a message, `e` being its entry after it.
  unfoldable pub track_calls :
      DecodedMessage D → Bytes → Bytes → TrackedTarget D → List (TrackCall D)
  track_calls msg key kind e =
      let db_name = field_str msg (codes "name") in
      let db_cs = or_else (field_str msg (codes "callsign")) (field_str msg (codes "call_sign")) in
      (if is_empty db_name && is_empty db_cs
        then []
        else upsert_entity key kind db_name db_cs e.last_seen_ms ∷ [])
      ++ (if position_known f msg
          then record_position key e.last_seen_ms (field f msg (codes "lat"))
              (field f msg (codes "lon")) (if e.has_altitude then some e.altitude_ft else none)
              (if f.lt (zero_of f) e.sog_knots then some e.sog_knots else none)
              (if f.is_finite e.cog_degrees then some e.cog_degrees else none)
              (if same kind (codes "AIR") then codes "ADSB" else codes "AIS")
            ∷ []
          else [])

  -- A message without a key changes nothing.
  unfoldable pub update :
      ℕ → DecodedMessage D → TargetTracker D → TargetTracker D × List (TrackCall D)
  update now msg t =
      let (key, kind) = key_and_kind msg in
      let seen = if msg.unix_ms == 0 then now else msg.unix_ms in
      let e = updated_target f seen msg key kind (target_or_new (lookup key t.entries)) in
      if is_empty key then (t, []) else (
        record t { entries = insert key e t.entries },
        if t.has_db then track_calls msg key kind e else [],
      )

module _ {D : Type 0} where
  -- The entry of a key that is there gets the label.
  unfoldable pub relabel :
      Bytes → Bytes → List (Bytes × TrackedTarget D) → List (Bytes × TrackedTarget D)
  relabel key label [] = []
  relabel key label ((k, e) ∷ entries) =
      if same k key
      then (k, record e { label = label }) ∷ entries
      else (k, e) ∷ relabel key label entries

  unfoldable pub learn_label : Bytes → Bytes → TargetTracker D → TargetTracker D
  learn_label key label t =
      if is_empty key || is_empty label
      then t
      else record t { entries = relabel key label t.entries }

  abbrev pub is_stale : ℕ → TargetTracker D → TrackedTarget D → Bool
  is_stale now t e =
      let threshold = if same e.target_kind (codes "SEA") then t.sea_stale_ms else t.air_stale_ms in
      ltb 0 threshold && ltb threshold (now - e.last_seen_ms)

  abbrev pub entry_stale : ℕ → TargetTracker D → Bytes × TrackedTarget D → Bool
  entry_stale now t entry = is_stale now t entry.1

  abbrev pub entry_fresh : ℕ → TargetTracker D → Bytes × TrackedTarget D → Bool
  entry_fresh now t entry = not (is_stale now t entry.1)

module _ {D : Type 0} (f : Doubles D) where
  abbrev pub has_position : TrackedTarget D → Bool
  has_position e = f.is_finite e.lat && f.is_finite e.lon

  unfoldable pub take_snapshot : ℕ → TargetTracker D → TargetTracker D × RadarSnapshot D
  take_snapshot now t =
      let left = keep (entry_fresh now t) t.entries in
      let gone = keep (entry_stale now t) t.entries in
      (
        record t { entries = left; pending_removed = [] },
        record {
          targets = keep has_position (map (λ entry. entry.1) left);
          removed_ids = t.pending_removed ++ map (λ entry. entry.0) gone;
          snapshot_ms = now;
        },
      )
