-- ===== src/Worker/MessageLaws.antt =====
-- What becomes of the messages of the plugins in ProcessLoop of backend/src/receiver_worker.cpp.
use multi_radio.Common.{
  ℕ, ◌+◌, ◌≡◌, refl, sym, ◌∙◌, inl, inr, Bool, false, ◌==◌, Option, none, some, [], ◌∷◌, ◌++◌,
  append-nil, arith, leb, if◌then◌else◌, Bool-cases, Option-cases, is_empty, Bytes, codes, same,
  same_iff, lookup, lookup-insert,
}
use multi_radio.Types.Data.{DecodedMessage}
use multi_radio.Types.Double.{Doubles}
use multi_radio.Plugins.Host.{PluginMessage}
use multi_radio.TrackDatabase.Store.{TrackDatabase, lookup_name}
use multi_radio.Worker.DscRate.{allow_dsc_message}
use multi_radio.Worker.MessageFields.{Fields}
use multi_radio.Worker.Messages.{
  DecodePath, inject_name, with_names, count_published, decoded_message, publish_message,
  receive_message,
}

module _ {D : Type 0} where
  inject_name-lookup :
      (id : Option Bytes) (key : Bytes) (db : TrackDatabase D) (nf fields : Fields) (k v : Bytes)
      → lookup k nf ≡ some v
      → lookup k fields ≡ some v
      → lookup k (inject_name id (lookup key nf) key db fields) ≡ some v
  unfolding inject_name
  inject_name-lookup none key db nf fields k v there kept = kept
  inject_name-lookup (some id) key db nf fields k v there kept =
      elim (Option-cases (lookup key nf)) [
        | inr (w, e) ↦ rw (e) kept
        | inl e ↦ elim (Bool-cases (is_empty (lookup_name id db))) [
          | inl nameless ↦ rw (e, nameless) kept
          | inr named ↦
              let other : same key k ≡ false = ground (arith, same_iff key k, e, there) in
              rw (e, named) (lookup-insert key k (lookup_name id db) fields ∙ rw (other) kept)
        ]
      ]

  -- No name that is added takes the place of a field of the message.
  with_names-lookup :
      (db : TrackDatabase D) (nf : Fields) (k v : Bytes)
      → lookup k nf ≡ some v
      → lookup k (with_names db nf) ≡ some v
  unfolding with_names
  with_names-lookup db nf k v there =
      inject_name-lookup (lookup (codes "mmsi") nf) (codes "name") db nf _ k v there
        (inject_name-lookup (lookup (codes "icao") nf) (codes "callsign") db nf nf k v there there)

  -- The time of a message and the start of the window that it is counted in.
  abbrev pub is_window_over : ℕ → DecodedMessage D → DecodePath D → Bool
  is_window_over now dm s =
      let at = if dm.unix_ms == 0 then now else dm.unix_ms in
      leb ((if s.publish_window_start_ms == 0 then at else s.publish_window_start_ms) + 1000) at

  count_published-published :
      (now : ℕ) (dm : DecodedMessage D) (s : DecodePath D)
      → (count_published now dm s).published ≡ s.published
  unfolding count_published
  count_published-published now dm s = elim (Bool-cases (is_window_over now dm s)) [
    | inl e ↦ rw (e) refl
    | inr e ↦ rw (e) refl
  ]

  -- What is published of a message: the fields of the message are all there as they were.
  abbrev pub IsPublished : ℕ → PluginMessage D → DecodedMessage D → Type 0
  IsPublished receiver_id msg dm =
      (dm.receiver_id ≡ receiver_id)
      × (dm.unix_ms ≡ msg.unix_ms)
      × (dm.signal_type ≡ msg.signal_type)
      × (dm.payload ≡ msg.payload)
      × ((k v : Bytes)
          → lookup k msg.normalized_fields ≡ some v
          → lookup k dm.normalized_fields ≡ some v)

module _ {D : Type 0} (f : Doubles D) (distance : D → D → D → D → D) (change : D → D → D)
    (stod : Bytes → Option D) where
  decoded_message-IsPublished :
      (receiver_id : ℕ) (tuned : D) (msg : PluginMessage D) (db : TrackDatabase D)
      → IsPublished receiver_id msg
          (decoded_message f distance change stod receiver_id tuned msg db)
  unfolding decoded_message
  decoded_message-IsPublished receiver_id tuned msg db =
      (refl, refl, refl, refl, λ k v there. with_names-lookup db msg.normalized_fields k v there)

  publish_message-published :
      (now receiver_id : ℕ) (tuned : D) (msg : PluginMessage D) (s : DecodePath D)
      → (dm : DecodedMessage D) × IsPublished receiver_id msg dm
        × ((publish_message f distance change stod now receiver_id tuned msg s).published
            ≡ s.published ++ (dm ∷ []))
  unfolding publish_message
  publish_message-published now receiver_id tuned msg s = (
    decoded_message f distance change stod receiver_id tuned msg _,
    decoded_message-IsPublished receiver_id tuned msg _,
    count_published-published now _ _,
  )

  -- A message that the rate limit lets pass is published once, behind what was published before, with
  -- its receiver, time, type and payload and with every field as the plugin wrote it, whatever names
  -- are added; of another message nothing is published.
  pub receive_message-published :
      (now receiver_id : ℕ) (tuned : D) (msg : PluginMessage D) (s : DecodePath D)
      → (dm : DecodedMessage D) × IsPublished receiver_id msg dm
        × ((receive_message f distance change stod now receiver_id tuned msg s).published
            ≡ s.published ++ (if (allow_dsc_message msg s.rate).0 then dm ∷ [] else []))
  unfolding receive_message
  receive_message-published now receiver_id tuned msg s =
      elim (Bool-cases (allow_dsc_message msg s.rate).0) [
        | inl passes ↦ rw (passes) (publish_message-published now receiver_id tuned msg _)
        | inr stopped ↦ rw (stopped) (
          decoded_message f distance change stod receiver_id tuned msg s.track_db,
          decoded_message-IsPublished receiver_id tuned msg s.track_db,
          sym (append-nil s.published),
        )
      ]
