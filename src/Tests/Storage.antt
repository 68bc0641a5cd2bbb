-- ===== src/Tests/Storage.antt =====
-- The theorems of the event log and the track database at concrete inputs.
use multi_radio.Common.{
  ℕ, List, Bool, true, any, same, same_iff, ==_refl, ◌==◌, ◌&&◌, if◌then◌else◌, ◌+◌, ◌-◌, ◌≡◌, refl,
  false, none, some, [], ◌∷◌, ◌++◌, arith, Bytes, codes, lookup,
}
use multi_radio.Names.Json.{quote}
use multi_radio.EventLog.Lines.{escape_json}
use multi_radio.EventLog.Logger.{JsonlLogger, log_line}
use multi_radio.EventLog.Reading.{read_text, read_text-escape_json}
use multi_radio.EventLog.Rotation.{log_text, IsDropped, log_line-kept}
use multi_radio.Tracker.Calls.{TrackCall, record_position}
use multi_radio.TrackDatabase.Store.{
  Statement, upsert_row, insert_track, TrackDatabase, store_entity, store_position,
}
use multi_radio.TrackDatabase.Rows.{last_insert, IsSpaced, IsInStep}
use multi_radio.TrackDatabase.Tables.{
  Track, Sqlite, IsSqlite, step_all, store_entity-store_position,
}
use multi_radio.Tests.Data.{whole}

read_text-escape_json_example :
    read_text (escape_json (codes "a\"b\n") ++ (quote ∷ codes ","))
    ≡ some (codes "a\"b\n", codes ",")
read_text-escape_json_example =
    read_text-escape_json (codes "a\"b\n") (codes ",") (refl, (refl, (refl, (refl, tt))))

-- A log that rotates with every line of three bytes.
abbrev small_log : JsonlLogger
small_log = record {
  max_bytes = 3;
  max_files = 1;
  is_open = false;
  current = some (codes "{}");
  numbered = λ i. some (codes "[]");
}

log_line-kept_example :
    (dropped : Bytes) × IsDropped small_log dropped
    × (dropped ++ log_text (log_line (codes "{}") small_log)
        ≡ log_text small_log ++ (codes "{}" ++ (10 ∷ [])))
log_line-kept_example = log_line-kept (codes "{}") small_log

abbrev pub no_distance : ℕ → ℕ → ℕ → ℕ → ℕ
no_distance a b c d = 0

abbrev pub difference : ℕ → ℕ → ℕ
difference a b = (a - b) + (b - a)

abbrev pub empty_database : TrackDatabase ℕ
empty_database = record { name_cache = []; last_pos = [] }

pub empty-IsInStep : IsInStep whole no_distance difference empty_database []
unfolding last_insert IsSpaced lookup
empty-IsInStep = ((λ id. refl), tt)

abbrev a_position : ℕ → TrackCall ℕ
a_position ts_ms = record_position (codes "265") ts_ms 59 18 none (some 3) none (codes "AIS")

-- Tables of ids and tracks, which take a track whose id is there.
abbrev SmallTables : Type 0
SmallTables = List Bytes × List (Track ℕ)

unfoldable step_tables : Statement ℕ → SmallTables → SmallTables
step_tables (upsert_row id kind name callsign ts_ms) (ids, tracks) = (id ∷ ids, tracks)
step_tables (insert_track id ts_ms lat lon altitude sog cog source) (ids, tracks) =
    if any (same id) ids then (ids, (id, ts_ms, lat, lon) ∷ tracks) else (ids, tracks)
step_tables _ t = t

abbrev same_track : Track ℕ → Track ℕ → Bool
same_track (i, s, x, y) (j, t, u, v) = same i j && (s == t && (x == u && y == v))

abbrev small_sqlite : Sqlite ℕ SmallTables
small_sqlite = record {
  step = step_tables;
  has_entity = λ id t. any (same id) t.0;
  has_track = λ track t. any (same_track track) t.1;
}

small_sqlite-IsSqlite : IsSqlite whole.is_finite small_sqlite
unfolding step_tables
small_sqlite-IsSqlite = record {
  entity_there = λ id kind name callsign ts_ms t. ground (arith, same_iff id id);
  track_inserted = λ id ts_ms lat lon altitude sog cog source t there fin_lat fin_lon.
      rw (there) (ground (arith, same_iff id id, ==_refl ts_ms, ==_refl lat, ==_refl lon));
  track_refused = λ id ts_ms lat lon altitude sog cog source t lost. rw (lost) refl;
}

store_entity-store_position_example :
    small_sqlite.has_track
      (codes "265", 1000, 59, 18)
      (step_all small_sqlite
        (store_position whole no_distance difference
          (codes "265")
          1000
          59
          18
          none
          none
          none
          (codes "AIS")
          (store_entity (codes "265") (codes "SEA") (codes "BO") [] 900 empty_database).0).1
        (step_all small_sqlite
          (store_entity (codes "265") (codes "SEA") (codes "BO") [] 900 empty_database).1
          ([], [])))
    ≡ true
unfolding last_insert
store_entity-store_position_example =
    store_entity-store_position small_sqlite whole no_distance difference (codes "265")
      (codes "SEA") (codes "BO") [] 900 1000 59 18 none none none (codes "AIS") empty_database []
      ([], []) small_sqlite-IsSqlite empty-IsInStep refl refl refl (λ p e. ground (arith, e))
