-- ===== src/TrackDatabase/Store.antt =====
-- The operations of backend/src/track_database.cpp: what they change in memory, and the statements that
-- they step, with their bound values, in order. SQLite itself stands outside, and may
-- refuse a statement, as it refuses the track of an id without a row in `entities`: the results of the
-- steps are not read. `distance` is
-- DistanceMeters and `change` the absolute value of a difference: they are sines and doubles.
use multi_radio.Common.{
  ℕ, ◌-◌, Bool, true, false, not, ◌&&◌, ◌||◌, Option, none, some, List, [], ◌∷◌, ◌++◌, ltb, leb,
  if◌then◌else◌, is_empty, Bytes, codes, same, lookup, insert,
}
use multi_radio.Types.Double.{Doubles}
use multi_radio.Tracker.Calls.{TrackCall, upsert_entity, record_position}

pub data Statement (D : Type 0) : Type 0 where
  upsert_row : Bytes → Bytes → Bytes → Bytes → ℕ → Statement D
  insert_track : Bytes → ℕ → D → D → Option D → Option D → Option D → Bytes → Statement D
  insert_raw : ℕ → ℕ → Bytes → D → Bytes → Bytes → Bytes → Bytes → Statement D
  delete_tracks : ℕ → Statement D
  delete_raw : ℕ → Statement D
  delete_entities : Statement D

pub record LastPos (D : Type 0) : Type 0 where
  pub lat : D
  pub lon : D
  pub sog : D
  pub ts_ms : ℕ

pub record TrackDatabase (D : Type 0) : Type 0 where
  pub name_cache : List (Bytes × Bytes)
  pub last_pos : List (Bytes × LastPos D)

-- "SEA" prefers the name, the others the callsign.
unfoldable pub label_of : Bytes → Bytes → Bytes → Bytes
label_of kind name callsign =
    if same kind (codes "SEA")
    then (if is_empty name then callsign else name)
    else if is_empty callsign
    then name
    else callsign

abbrev pub text_or_empty : Option Bytes → Bytes
text_or_empty none = []
text_or_empty (some s) = s

module _ {D : Type 0} where
  -- The names that the constructor takes over, of the ids and labels of the rows.
  unfoldable pub warm_cache : List (Option Bytes × Option Bytes) → TrackDatabase D → TrackDatabase D
  warm_cache [] db = db
  warm_cache ((some id, some (c ∷ label)) ∷ rows) db =
      warm_cache rows (record db { name_cache = insert id (c ∷ label) db.name_cache })
  warm_cache (_ ∷ rows) db = warm_cache rows db

  -- `UpsertEntity`.
  unfoldable pub store_entity :
      Bytes → Bytes → Bytes → Bytes → ℕ → TrackDatabase D → TrackDatabase D × List (Statement D)
  store_entity id kind name callsign ts_ms db =
      let label = label_of kind name callsign in
      if is_empty id then (db, []) else (
        if is_empty label then db else record db { name_cache = insert id label db.name_cache },
        upsert_row id kind name callsign ts_ms ∷ [],
      )

  unfoldable pub lookup_name : Bytes → TrackDatabase D → Bytes
  lookup_name id db = if is_empty id then [] else text_or_empty (lookup id db.name_cache)

  -- `RecordRawFrame`.
  unfoldable pub store_raw_frame :
      ℕ
      → ℕ
      → Bytes
      → D
      → Bytes
      → Bytes
      → Bytes
      → Bytes
      → TrackDatabase D
      → TrackDatabase D × List (Statement D)
  store_raw_frame ts_ms receiver_id source frequency_hz payload fields_json entity_id msg_type db =
      (
        db,
        insert_raw ts_ms receiver_id source frequency_hz payload fields_json entity_id msg_type
            ∷ [],
      )

  -- `Prune` at a time.
  unfoldable pub prune : ℕ → ℕ → ℕ → TrackDatabase D → TrackDatabase D × List (Statement D)
  prune now tracks_max_age_ms raw_max_age_ms db = (
    db,
    (if ltb 0 tracks_max_age_ms && ltb tracks_max_age_ms now
          then delete_tracks (now - tracks_max_age_ms) ∷ []
          else [])
        ++ (if ltb 0 raw_max_age_ms && ltb raw_max_age_ms now
            then delete_raw (now - raw_max_age_ms) ∷ []
            else []),
  )

  unfoldable pub clear_entities : TrackDatabase D → TrackDatabase D × List (Statement D)
  clear_entities db = (record db { name_cache = [] }, delete_entities ∷ [])

module _ {D : Type 0} (f : Doubles D) (distance : D → D → D → D → D) (change : D → D → D) where
  -- `sog_knots.has_value() && std::abs(*sog_knots - prev.sog) >= kMinSogChangekn`.
  abbrev pub is_faster : Option D → D → Bool
  is_faster none before = false
  is_faster (some sog) before = f.le (f.literal (codes "2.0")) (change sog before)

  -- `ShouldRecord`, of the position that was last recorded.
  unfoldable pub should_record : Option (LastPos D) → ℕ → D → D → Option D → Bool
  should_record none ts_ms lat lon sog = true
  should_record (some prev) ts_ms lat lon sog =
      let age = if ltb prev.ts_ms ts_ms then ts_ms - prev.ts_ms else 0 in
      leb 60000 age
      || (f.le (f.literal (codes "100.0")) (distance prev.lat prev.lon lat lon)
          || is_faster sog prev.sog)

  -- `lp.sog`, which begins with 0.0.
  abbrev pub sog_before : Option (LastPos D) → D
  sog_before none = f.literal (codes "0.0")
  sog_before (some prev) = prev.sog

  abbrev pub sog_after : Option D → Option (LastPos D) → D
  sog_after none prev = sog_before prev
  sog_after (some sog) prev = sog

  abbrev pub new_pos : Option (LastPos D) → ℕ → D → D → Option D → LastPos D
  new_pos prev ts_ms lat lon sog = record {
    lat = lat;
    lon = lon;
    sog = sog_after sog prev;
    ts_ms = ts_ms;
  }

  -- `RecordPosition`.
  unfoldable pub store_position :
      Bytes
      → ℕ
      → D
      → D
      → Option D
      → Option D
      → Option D
      → Bytes
      → TrackDatabase D
      → TrackDatabase D × List (Statement D)
  store_position id ts_ms lat lon altitude sog cog source db =
      let prev = lookup id db.last_pos in
      if is_empty id
      then (db, [])
      else if not (f.is_finite lat && f.is_finite lon)
      then (db, [])
      else if not (should_record prev ts_ms lat lon sog)
      then (db, [])
      else (
        record db { last_pos = insert id (new_pos prev ts_ms lat lon sog) db.last_pos },
        insert_track id ts_ms lat lon altitude sog cog source ∷ [],
      )

  -- A call of the tracker.
  unfoldable pub serve_call : TrackCall D → TrackDatabase D → TrackDatabase D × List (Statement D)
  serve_call (upsert_entity id kind name callsign ts_ms) db =
      store_entity id kind name callsign ts_ms db
  serve_call (record_position id ts_ms lat lon altitude sog cog source) db =
      store_position id ts_ms lat lon altitude sog cog source db

  -- Calls one after the other: the memory and all the statements so far, the last one first.
  unfoldable pub serve_calls :
      List (TrackCall D)
      → TrackDatabase D
      → List (Statement D)
      → TrackDatabase D × List (Statement D)
  serve_calls [] db log = (db, log)
  serve_calls (c ∷ calls) db log =
      let (next, stepped) = serve_call c db in serve_calls calls next (stepped ++ log)
