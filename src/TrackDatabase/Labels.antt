-- ===== src/TrackDatabase/Labels.antt =====
-- The names that backend/src/track_database.cpp keeps in memory.
use multi_radio.Common.{
  ℕ, ◌≡◌, refl, false, not, ◌&&◌, [], ◌∷◌, arith, if◌then◌else◌, is_empty, Bytes, same, lookup,
  lookup-insert,
}
use multi_radio.TrackDatabase.Store.{
  TrackDatabase, label_of, store_entity, lookup_name, clear_entities,
}

module _ {D : Type 0} where
  -- A look-up of an entity finds the label of a call that stored it, its name or its callsign by its
  -- kind, where one of them is not empty; a call without them and a call for another entity change
  -- nothing of it, and after the entities are cleared there is no name.
  pub store_entity-lookup_name :
      (id other kind name callsign : Bytes) (ts_ms : ℕ) (db : TrackDatabase D)
      → is_empty id ≡ false
      → (lookup_name other (store_entity id kind name callsign ts_ms db).0 ≡ (
          if same id other && not (is_empty (label_of kind name callsign))
          then label_of kind name callsign
          else lookup_name other db))
        × (lookup_name other (clear_entities db).0 ≡ [])
  unfolding store_entity lookup_name clear_entities lookup
  store_entity-lookup_name [] other kind name callsign ts_ms db named = ground (arith, named)
  store_entity-lookup_name (c ∷ id) [] kind name callsign ts_ms db named = (refl, refl)
  store_entity-lookup_name (c ∷ id) (d ∷ other) kind name callsign ts_ms db named =
      let label = label_of kind name callsign in
      (ground (arith, lookup-insert (c ∷ id) (d ∷ other) label db.name_cache), refl)
