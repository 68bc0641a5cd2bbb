-- ===== src/TrackDatabase/Rows.antt =====
-- The INSERTs of positions that backend/src/track_database.cpp steps, and what it remembers of them.
use multi_radio.Tracker.Calls.{TrackCall, upsert_entity, record_position}
use multi_radio.Common.{
  ℕ, ◌-◌, leb, ltb, codes, ◌⊎◌, ◌+◌, ◌≤◌, ◌≡◌, refl, sym, ap, ap₂, subst, or_true, ◌||◌, ◌∙◌, inl,
  inr, true, false, ◌&&◌, Option, none, some, List, [], ◌∷◌, ◌++◌, arith, if◌then◌else◌, Bool-cases,
  is_empty, Bytes, same, same_eq, lookup, lookup-insert,
}
use multi_radio.Types.Double.{Doubles}
use multi_radio.TrackDatabase.Store.{
  Statement, insert_track, LastPos, TrackDatabase, store_entity, should_record, is_faster, new_pos,
  store_position, label_of, serve_call, serve_calls,
}

same_id :
    {A : Type 0} (id other : Bytes) (g : Bytes → A) (a : A)
    → (if same id other then g id else a) ≡ (if same id other then g other else a)
same_id id other g a = elim (Bool-cases (same id other)) [
  | inl e ↦ rw (e) (ap g (same_eq id other e))
  | inr e ↦ rw (e) refl
]

module _ {D : Type 0} (f : Doubles D) (distance : D → D → D → D → D) (change : D → D → D) where
  -- The speed that is known behind a position: its own, else the one known before, else 0.0.
  abbrev pub known_speed : Option D → Option (LastPos D) → D
  known_speed (some sog) before = sog
  known_speed none (some before) = before.sog
  known_speed none none = f.literal (codes "0.0")

  abbrev pub position_at : Option (LastPos D) → ℕ → D → D → Option D → LastPos D
  position_at before ts_ms lat lon sog = record {
    lat = lat;
    lon = lon;
    sog = known_speed sog before;
    ts_ms = ts_ms;
  }

  -- The position of the last INSERT of an entity, with the speed that was last known.
  unfoldable pub last_insert : List (Statement D) → Bytes → Option (LastPos D)
  last_insert [] id = none
  last_insert (insert_track i ts_ms lat lon altitude sog cog source ∷ log) id =
      let before = last_insert log id in
      if same i id then some (position_at before ts_ms lat lon sog) else before
  last_insert (_ ∷ log) id = last_insert log id

  abbrev pub IsFaster : Option D → D → Type 0
  IsFaster none before = ⊥
  IsFaster (some sog) before = f.le (f.literal (codes "2.0")) (change sog before) ≡ true

  -- A minute or more after the position before, 100 meters or more away from it, or 2 knots or more
  -- faster or slower; or none was before.
  unfoldable pub IsDue : Option (LastPos D) → ℕ → D → D → Option D → Type 0
  IsDue none ts_ms lat lon sog = Unit
  IsDue (some before) ts_ms lat lon sog =
      (before.ts_ms + 60000 ≤ ts_ms)
      ⊎ ((f.le (f.literal (codes "100.0")) (distance before.lat before.lon lat lon) ≡ true)
          ⊎ IsFaster sog before.sog)

  -- The INSERT of each position was due, given the one of its entity before it.
  unfoldable pub IsSpaced : List (Statement D) → Type 0
  IsSpaced [] = Unit
  IsSpaced (insert_track i ts_ms lat lon altitude sog cog source ∷ log) =
      IsDue (last_insert log i) ts_ms lat lon sog × IsSpaced log
  IsSpaced (_ ∷ log) = IsSpaced log

  -- What is remembered in memory is the last INSERT of each entity.
  abbrev pub IsInStep : TrackDatabase D → List (Statement D) → Type 0
  IsInStep db log = ((id : Bytes) → lookup id db.last_pos ≡ last_insert log id) × IsSpaced log

  new_pos-position_at :
      (before : Option (LastPos D)) (ts_ms : ℕ) (lat lon : D) (sog : Option D)
      → new_pos f distance change before ts_ms lat lon sog ≡ position_at before ts_ms lat lon sog
  new_pos-position_at before ts_ms lat lon (some sog) = refl
  new_pos-position_at none ts_ms lat lon none = refl
  new_pos-position_at (some before) ts_ms lat lon none = refl

  is_faster-IsFaster :
      (sog : Option D) (before : D)
      → is_faster f distance change sog before ≡ true
      → IsFaster sog before
  is_faster-IsFaster none before h = absurd (ground (arith, h))
  is_faster-IsFaster (some sog) before h = h

  should_record-IsDue :
      (before : Option (LastPos D)) (ts_ms : ℕ) (lat lon : D) (sog : Option D)
      → should_record f distance change before ts_ms lat lon sog ≡ true
      → IsDue before ts_ms lat lon sog
  unfolding should_record IsDue
  should_record-IsDue none ts_ms lat lon sog due = tt
  should_record-IsDue (some p) ts_ms lat lon sog due =
      let age = if ltb p.ts_ms ts_ms then ts_ms - p.ts_ms else 0 in
      let far = f.le (f.literal (codes "100.0")) (distance p.lat p.lon lat lon) in
      elim (or_true (leb 60000 age) (far || is_faster f distance change sog p.sog) due) [
        | inl late ↦ inl (ground (arith, late))
        | inr moved ↦ elim (or_true far (is_faster f distance change sog p.sog) moved) [
          | inl away ↦ inr (inl away)
          | inr faster ↦ inr (inr (is_faster-IsFaster sog p.sog faster))
        ]
      ]

  pub store_entity-IsInStep :
      (id kind name callsign : Bytes) (ts_ms : ℕ) (db : TrackDatabase D) (log : List (Statement D))
      → IsInStep db log
      → let (next, stepped) = store_entity id kind name callsign ts_ms db in
        IsInStep next (stepped ++ log)
  unfolding store_entity last_insert IsSpaced
  store_entity-IsInStep id kind name callsign ts_ms db log (rows, spaced) =
      elim (Bool-cases (is_empty id)) [
        | inl nameless ↦ rw (nameless) (rows, spaced)
        | inr named ↦ elim (Bool-cases (is_empty (label_of kind name callsign))) [
          | inl unlabelled ↦ rw (named, unlabelled) (rows, spaced)
          | inr labelled ↦ rw (named, labelled) (rows, spaced)
        ]
      ]

  pub store_position-IsInStep :
      (id : Bytes) (ts_ms : ℕ) (lat lon : D) (altitude sog cog : Option D) (source : Bytes)
      (db : TrackDatabase D) (log : List (Statement D))
      → IsInStep db log
      → let (next, stepped) =
          store_position f distance change id ts_ms lat lon altitude sog cog source db in
        IsInStep next (stepped ++ log)
  unfolding store_position last_insert IsSpaced
  store_position-IsInStep id ts_ms lat lon altitude sog cog source db log (rows, spaced) =
      let prev = lookup id db.last_pos in
      elim (Bool-cases (is_empty id)) [
        | inl nameless ↦ rw (nameless) (rows, spaced)
        | inr named ↦ elim (Bool-cases (f.is_finite lat && f.is_finite lon)) [
          | inr infinite ↦ rw (named, infinite) (rows, spaced)
          | inl finite ↦
              elim (Bool-cases (should_record f distance change prev ts_ms lat lon sog)) [
                | inr early ↦ rw (named, finite, early) (rows, spaced)
                | inl due ↦
                    rw (named, finite, due)
                      (
                        (λ other.
                            lookup-insert id other
                              (new_pos f distance change prev ts_ms lat lon sog) db.last_pos
                            ∙ ap (λ p. if same id other then some p else lookup other db.last_pos)
                                (new_pos-position_at prev ts_ms lat lon sog)
                            ∙ ap₂
                                (λ before kept.
                                  if same id other
                                  then some (position_at before ts_ms lat lon sog)
                                  else kept)
                                (rows id) (rows other)
                            ∙ same_id id other
                                (λ i. some (position_at (last_insert log i) ts_ms lat lon sog))
                                (last_insert log other)),
                        (
                          subst (λ before. IsDue before ts_ms lat lon sog) (rows id)
                              (should_record-IsDue prev ts_ms lat lon sog due),
                          spaced,
                        ),
                      )
              ]
        ]
      ]

  -- Whatever the tracker calls, one call after the other: what is remembered in memory is the last
  -- INSERT of each entity, and the INSERT of each position was due.
  pub serve_calls-IsInStep :
      (calls : List (TrackCall D)) (db : TrackDatabase D) (log : List (Statement D))
      → IsInStep db log
      → let (after, written) = serve_calls f distance change calls db log in IsInStep after written
  unfolding serve_calls serve_call
  serve_calls-IsInStep [] db log ok = ok
  serve_calls-IsInStep (upsert_entity id kind name callsign ts_ms ∷ calls) db log ok =
      serve_calls-IsInStep calls _ _ (store_entity-IsInStep id kind name callsign ts_ms db log ok)
  serve_calls-IsInStep (record_position id ts_ms lat lon altitude sog cog source ∷ calls) db log
        ok =
      serve_calls-IsInStep calls _ _
        (store_position-IsInStep id ts_ms lat lon altitude sog cog source db log ok)

  should_record-late :
      (prev : Option (LastPos D)) (ts_ms : ℕ) (lat lon : D) (sog : Option D)
      → ((p : LastPos D) → prev ≡ some p → p.ts_ms + 60000 ≤ ts_ms)
      → should_record f distance change prev ts_ms lat lon sog ≡ true
  unfolding should_record
  should_record-late none ts_ms lat lon sog old = refl
  should_record-late (some p) ts_ms lat lon sog old = ground (arith, old p refl)

  -- A minute after the last INSERT of an entity, or while it has none, the INSERT of a position of it
  -- is stepped, if its numbers are finite and the entity has an id.
  pub store_position-stepped :
      (id : Bytes) (ts_ms : ℕ) (lat lon : D) (altitude sog cog : Option D) (source : Bytes)
      (db : TrackDatabase D) (log : List (Statement D))
      → IsInStep db log
      → is_empty id ≡ false
      → f.is_finite lat ≡ true
      → f.is_finite lon ≡ true
      → ((p : LastPos D) → last_insert log id ≡ some p → p.ts_ms + 60000 ≤ ts_ms)
      → (store_position f distance change id ts_ms lat lon altitude sog cog source db).1
        ≡ insert_track id ts_ms lat lon altitude sog cog source ∷ []
  unfolding store_position
  store_position-stepped id ts_ms lat lon altitude sog cog source db log (rows, spaced) named
        fin_lat fin_lon old =
      let due =
        should_record-late (lookup id db.last_pos) ts_ms lat lon sog
          (λ p at. old p (sym (rows id) ∙ at)) in
      rw (named, fin_lat, fin_lon, due) refl
