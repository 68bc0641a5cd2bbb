-- ===== src/TrackDatabase/Tables.antt =====
-- The tables that the statements of backend/src/track_database.cpp are stepped on. SQLite is a
-- parameter: what it does with the constraint on the tracks, whose `entity_id` references `entities`
-- with the foreign keys on, are the laws of `IsSqlite`.
use multi_radio.Common.{
  ℕ, ◌+◌, ◌≤◌, ◌≡◌, refl, sym, ap, ◌∙◌, Bool, true, false, Option, some, List, [], ◌∷◌, ◌++◌,
  is_empty, inl, inr, Bool-cases, Bytes,
}
use multi_radio.Types.Double.{Doubles}
use multi_radio.TrackDatabase.Store.{
  Statement, upsert_row, insert_track, LastPos, TrackDatabase, store_entity, store_position,
}
use multi_radio.TrackDatabase.Rows.{
  last_insert, IsInStep, store_entity-IsInStep, store_position-stepped,
}

-- A track: the id of its entity, its time, latitude and longitude.
abbrev pub Track : Type 0 → Type 0
Track D = Bytes × ℕ × D × D

-- The tables as SQLite has them: a step, and whether a row is there.
pub record Sqlite (D T : Type 0) : Type 0 where
  pub step : Statement D → T → T
  pub has_entity : Bytes → T → Bool
  pub has_track : Track D → T → Bool

pub record IsSqlite {D T : Type 0} (is_finite : D → Bool) (sql : Sqlite D T) : Type 0 where
  -- An INSERT with ON CONFLICT(id) DO UPDATE leaves a row with the id.
  pub entity_there :
      (id kind name callsign : Bytes) (ts_ms : ℕ) (t : T)
      → sql.has_entity id (sql.step (upsert_row id kind name callsign ts_ms) t) ≡ true
  -- A track whose entity is there and whose numbers are finite is inserted.
  pub track_inserted :
      (id : Bytes) (ts_ms : ℕ) (lat lon : D) (altitude sog cog : Option D) (source : Bytes) (t : T)
      → sql.has_entity id t ≡ true
      → is_finite lat ≡ true
      → is_finite lon ≡ true
      → sql.has_track
          (id, ts_ms, lat, lon)
          (sql.step (insert_track id ts_ms lat lon altitude sog cog source) t)
        ≡ true
  -- A track whose entity is not there is refused, and the tables are as before.
  pub track_refused :
      (id : Bytes) (ts_ms : ℕ) (lat lon : D) (altitude sog cog : Option D) (source : Bytes) (t : T)
      → sql.has_entity id t ≡ false
      → sql.step (insert_track id ts_ms lat lon altitude sog cog source) t ≡ t

module _ {D T : Type 0} (sql : Sqlite D T) where
  -- The statements of one call, the last one first.
  unfoldable pub step_all : List (Statement D) → T → T
  step_all [] t = t
  step_all (statement ∷ before) t = sql.step statement (step_all before t)

  store_entity-there :
      {is_finite : D → Bool}
      → (id kind name callsign : Bytes) (ts_ms : ℕ) (db : TrackDatabase D) (t : T)
      → IsSqlite is_finite sql
      → is_empty id ≡ false
      → sql.has_entity id (step_all (store_entity id kind name callsign ts_ms db).1 t) ≡ true
  unfolding store_entity step_all
  store_entity-there id kind name callsign ts_ms db t laws named =
      rw (named) (laws.entity_there id kind name callsign ts_ms t)

  module _ (f : Doubles D) (distance : D → D → D → D → D) (change : D → D → D) where
    last_insert-store_entity :
        (id kind name callsign other : Bytes) (ts_ms : ℕ) (db : TrackDatabase D)
        (log : List (Statement D))
        → last_insert f distance change
            ((store_entity id kind name callsign ts_ms db).1 ++ log)
            other
          ≡ last_insert f distance change log other
    unfolding store_entity last_insert
    last_insert-store_entity id kind name callsign other ts_ms db log =
        elim (Bool-cases (is_empty id)) [ inl e ↦ rw (e) refl | inr e ↦ rw (e) refl ]

    -- The position of an entity that was stored by the call before it is in the table of the tracks, if
    -- the memory was in step with the statements so far, the entity has an id, the numbers are finite,
    -- and a minute has passed since the last INSERT of a position of it, or none was made.
    pub store_entity-store_position :
        (id kind name callsign : Bytes) (seen_ms ts_ms : ℕ) (lat lon : D)
        (altitude sog cog : Option D) (source : Bytes) (db : TrackDatabase D)
        (log : List (Statement D)) (t : T)
        → IsSqlite f.is_finite sql
        → IsInStep f distance change db log
        → is_empty id ≡ false
        → f.is_finite lat ≡ true
        → f.is_finite lon ≡ true
        → ((p : LastPos D)
            → last_insert f distance change log id ≡ some p
            → p.ts_ms + 60000 ≤ ts_ms)
        → let (db', stored) = store_entity id kind name callsign seen_ms db in
          let placed =
            (store_position f distance change id ts_ms lat lon altitude sog cog source db').1 in
          sql.has_track (id, ts_ms, lat, lon) (step_all placed (step_all stored t)) ≡ true
    unfolding step_all
    store_entity-store_position id kind name callsign seen_ms ts_ms lat lon altitude sog cog source
          db log t laws ok named fin_lat fin_lon old =
        let (db', stored) = store_entity id kind name callsign seen_ms db in
        let placed =
          store_position-stepped f distance change id ts_ms lat lon altitude sog cog source db'
            (stored ++ log)
            (store_entity-IsInStep f distance change id kind name callsign seen_ms db log ok) named
            fin_lat fin_lon
            (λ p at.
              old p
                (sym (last_insert-store_entity id kind name callsign id seen_ms db log) ∙ at)) in
        ap
          (λ statements.
            sql.has_track (id, ts_ms, lat, lon) (step_all statements (step_all stored t)))
          placed
        ∙ laws.track_inserted id ts_ms lat lon altitude sog cog source (step_all stored t)
            (store_entity-there id kind name callsign seen_ms db t laws named) fin_lat fin_lon
