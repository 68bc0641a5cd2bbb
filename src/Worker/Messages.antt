-- ===== src/Worker/Messages.antt =====
-- What ProcessLoop in backend/src/receiver_worker.cpp does with a message of the plugins: the rate
-- limit, the names that it learns, the rows, the names that it adds, and the publishing. The track
-- database and the tracker are there. `stod` is `std::stod`, `none` where it throws; `now` is the clock.
use multi_radio.Common.{
  ℕ, ◌+◌, Bool, true, false, not, ◌&&◌, ◌||◌, Option, none, some, List, [], ◌∷◌, ◌++◌, leb, ◌==◌,
  if◌then◌else◌, is_empty, Bytes, codes, lookup, insert,
}
use multi_radio.Types.Data.{SignalType, unknown, ais, adsb, dsc, DecodedMessage}
use multi_radio.Types.Double.{Doubles, zero_of}
use multi_radio.Ais.Format.{decimal}
use multi_radio.Ais.Messages.{concat}
use multi_radio.Plugins.Host.{PluginMessage}
use multi_radio.Tracker.Calls.{TargetTracker, update, learn_label}
use multi_radio.TrackDatabase.Store.{
  Statement, TrackDatabase, store_entity, store_position, store_raw_frame, lookup_name, serve_calls,
  text_or_empty,
}
use multi_radio.Worker.Config.{signal_type_token}
use multi_radio.Worker.DscRate.{DscRate, allow_dsc_message}
use multi_radio.Worker.MessageFields.{
  Fields, fields_json, call_sign_of, is_stored_type, source_of, id_key_of, msg_type_of,
}

pub data DecodeEvent (D : Type 0) : Type 0 where
  dsc_rate_limited : D → DecodeEvent D
  decode_publish : Bytes → D → DecodeEvent D

-- The statements are the ones that ran, the last one first.
pub record DecodePath (D : Type 0) : Type 0 where
  pub rate : DscRate
  pub track_db : TrackDatabase D
  pub statements : List (Statement D)
  pub tracker : TargetTracker D
  pub published : List (DecodedMessage D)
  pub events : List (DecodeEvent D)
  pub publish_window_start_ms : ℕ
  pub publish_total : ℕ
  pub counts_by_type : SignalType → ℕ

abbrev pub counted_type : SignalType → (SignalType → ℕ) → List Bytes → List Bytes
counted_type t counts rest =
    if counts t == 0
    then rest
    else codes " " ∷ signal_type_token t ∷ codes "=" ∷ decimal (counts t) ∷ rest

unfoldable pub decode_status : ℕ → (SignalType → ℕ) → Bytes
decode_status total counts = concat (
    codes "DECODE_PUBLISH total="
    ∷ decimal total
    ∷ counted_type unknown counts
        (counted_type ais counts (counted_type adsb counts (counted_type dsc counts []))))

abbrev pub is_type : SignalType → SignalType → Bool
is_type unknown unknown = true
is_type ais ais = true
is_type adsb adsb = true
is_type dsc dsc = true
is_type _ _ = false

module _ {D : Type 0} where
  -- ADS-B: the callsign of an ICAO address.
  unfoldable pub learn_callsign :
      Option Bytes → Option Bytes → ℕ → TrackDatabase D → TrackDatabase D × List (Statement D)
  learn_callsign (some icao) (some callsign) ts db =
      if is_empty callsign then (db, []) else store_entity icao (codes "AIR") [] callsign ts db
  learn_callsign _ _ ts db = (db, [])

  -- AIS: the name and the callsign of an MMSI.
  unfoldable pub learn_name :
      Option Bytes → Bytes → Bytes → ℕ → TrackDatabase D → TrackDatabase D × List (Statement D)
  learn_name none name callsign ts db = (db, [])
  learn_name (some mmsi) name callsign ts db =
      if is_empty name && is_empty callsign
      then (db, [])
      else store_entity mmsi (codes "SEA") name callsign ts db

  unfoldable pub learn_target_label :
      Option Bytes → Bytes → Bytes → TargetTracker D → TargetTracker D
  learn_target_label none name callsign tracker = tracker
  learn_target_label (some mmsi) name callsign tracker =
      if is_empty name && is_empty callsign
      then tracker
      else learn_label mmsi (if is_empty name then callsign else name) tracker

  -- A name that is known is added to a message that has the id and no such field.
  unfoldable pub inject_name :
      Option Bytes → Option Bytes → Bytes → TrackDatabase D → Fields → Fields
  inject_name (some id) none key db fields =
      let learned = lookup_name id db in
      if is_empty learned then fields else insert key learned fields
  inject_name _ _ key db fields = fields

  unfoldable pub with_names : TrackDatabase D → Fields → Fields
  with_names db nf =
      inject_name (lookup (codes "mmsi") nf) (lookup (codes "name") nf) (codes "name") db (
        inject_name (lookup (codes "icao") nf) (lookup (codes "callsign") nf) (codes "callsign") db
          nf)

  abbrev pub number_of : (Bytes → Option D) → Option Bytes → Option D
  number_of stod none = none
  number_of stod (some text) = stod text

  abbrev pub first_number : Option D → Option D → Option D
  first_number none second = second
  first_number (some v) second = some v

  -- The count of what was published, which is published itself every second.
  unfoldable pub count_published : ℕ → DecodedMessage D → DecodePath D → DecodePath D
  count_published now dm s =
      let at = if dm.unix_ms == 0 then now else dm.unix_ms in
      let start = if s.publish_window_start_ms == 0 then at else s.publish_window_start_ms in
      let total = s.publish_total + 1 in
      let counts : SignalType → ℕ =
        λ t. if is_type t dm.signal_type then s.counts_by_type t + 1 else s.counts_by_type t in
      if leb (start + 1000) at
      then record s {
        events = s.events ++ (decode_publish (decode_status total counts) dm.frequency_hz ∷ []);
        publish_window_start_ms = at;
        publish_total = 0;
        counts_by_type = λ t. 0;
      }
      else record s {
        publish_window_start_ms = start;
        publish_total = total;
        counts_by_type = counts;
      }

module _ {D : Type 0} (f : Doubles D) (distance : D → D → D → D → D) (change : D → D → D)
    (stod : Bytes → Option D) where
  -- The position of a message with an id, if both of its numbers are read.
  unfoldable pub store_fix :
      Option D
      → Option D
      → Bytes
      → PluginMessage D
      → TrackDatabase D
      → TrackDatabase D × List (Statement D)
  store_fix (some lat) (some lon) id msg db =
      let number : Bytes → Option D = λ key. number_of stod (lookup key msg.normalized_fields) in
      store_position f distance change id msg.unix_ms lat lon
        (first_number (number (codes "alt_baro")) (number (codes "alt_geom")))
        (first_number (number (codes "sog")) (number (codes "gs"))) (number (codes "cog"))
        (source_of msg.signal_type) db
  store_fix _ _ id msg db = (db, [])

  -- The rows of a message: its position and the raw frame.
  unfoldable pub store_frame :
      ℕ → PluginMessage D → TrackDatabase D → TrackDatabase D × List (Statement D)
  store_frame receiver_id msg db =
      let nf = msg.normalized_fields in
      let id = text_or_empty (lookup (id_key_of msg.signal_type) nf) in
      let (fixed_db, fix) =
        store_fix (number_of stod (lookup (codes "lat") nf))
          (number_of stod (lookup (codes "lon") nf)) id msg db in
      let (raw_db, raw) =
        store_raw_frame msg.unix_ms receiver_id (source_of msg.signal_type) msg.frequency_hz
          msg.payload (fields_json nf) id (msg_type_of msg.signal_type nf) fixed_db in
      if not (is_stored_type msg.signal_type) || is_empty id then (db, []) else (raw_db, raw ++ fix)

  unfoldable pub decoded_message : ℕ → D → PluginMessage D → TrackDatabase D → DecodedMessage D
  decoded_message receiver_id tuned msg db = record {
    unix_ms = msg.unix_ms;
    receiver_id = receiver_id;
    signal_type = msg.signal_type;
    frequency_hz = if f.eq msg.frequency_hz (zero_of f) then tuned else msg.frequency_hz;
    payload = msg.payload;
    normalized_fields = with_names db msg.normalized_fields;
  }

  -- A message that the rate limit let pass.
  unfoldable pub publish_message : ℕ → ℕ → D → PluginMessage D → DecodePath D → DecodePath D
  publish_message now receiver_id tuned msg s =
      let nf = msg.normalized_fields in
      let name = text_or_empty (lookup (codes "name") nf) in
      let mmsi = lookup (codes "mmsi") nf in
      let (air_db, air) =
        learn_callsign (lookup (codes "icao") nf) (lookup (codes "callsign") nf) msg.unix_ms
          s.track_db in
      let (sea_db, sea) = learn_name mmsi name (call_sign_of nf) msg.unix_ms air_db in
      let tracker = learn_target_label mmsi name (call_sign_of nf) s.tracker in
      let (row_db, rows) = store_frame receiver_id msg sea_db in
      let dm = decoded_message receiver_id tuned msg row_db in
      let (seen, calls) = update f now dm tracker in
      let (db, statements) =
        serve_calls f distance change calls row_db (rows ++ (sea ++ (air ++ s.statements))) in
      count_published now dm (record s {
        track_db = db;
        statements = statements;
        tracker = seen;
        published = s.published ++ (dm ∷ []);
      })

  -- The callback of ProcessIq.
  unfoldable pub receive_message : ℕ → ℕ → D → PluginMessage D → DecodePath D → DecodePath D
  receive_message now receiver_id tuned msg s =
      let (allowed, rate, limited) = allow_dsc_message msg s.rate in
      let told = record s {
        rate = rate;
        events = s.events ++ (if limited then dsc_rate_limited msg.frequency_hz ∷ [] else []);
      } in
      if allowed then publish_message now receiver_id tuned msg told else told

  -- The callback of the DSC audio chain, which publishes the message as it is.
  unfoldable pub receive_audio_message : ℕ → D → PluginMessage D → DecodePath D → DecodePath D
  receive_audio_message receiver_id tuned msg s =
      let (allowed, rate, limited) = allow_dsc_message msg s.rate in
      let dm : DecodedMessage D = record {
        unix_ms = msg.unix_ms;
        receiver_id = receiver_id;
        signal_type = msg.signal_type;
        frequency_hz = if f.eq msg.frequency_hz (zero_of f) then tuned else msg.frequency_hz;
        payload = msg.payload;
        normalized_fields = msg.normalized_fields;
      } in
      record s {
        rate = rate;
        events = s.events ++ (if limited then dsc_rate_limited msg.frequency_hz ∷ [] else []);
        published = if allowed then s.published ++ (dm ∷ []) else s.published;
      }
