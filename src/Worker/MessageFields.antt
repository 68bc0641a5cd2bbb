-- ===== src/Worker/MessageFields.antt =====
-- The fields that ProcessLoop in backend/src/receiver_worker.cpp reads of a message of the plugins, and
-- their text in a row of a raw frame.
use multi_radio.Common.{
  Bool, true, false, Option, none, some, List, [], ◌∷◌, ◌++◌, ◌==◌, if◌then◌else◌, is_empty, ℕ,
  Bytes, codes, lookup,
}
use multi_radio.Types.Data.{SignalType, ais, adsb}
use multi_radio.Names.Json.{quote, backslash}
use multi_radio.TrackDatabase.Store.{text_or_empty}

abbrev pub Fields : Type 0
Fields = List (Bytes × Bytes)

abbrev pub key_escaped : ℕ → Bytes
key_escaped c = if c == quote then backslash ∷ quote ∷ [] else c ∷ []

abbrev pub value_escaped : ℕ → Bytes
value_escaped c =
    if c == quote
    then backslash ∷ quote ∷ []
    else if c == backslash
    then backslash ∷ backslash ∷ []
    else c ∷ []

unfoldable pub escaped_by : (ℕ → Bytes) → Bytes → Bytes
escaped_by escaped [] = []
escaped_by escaped (c ∷ text) = escaped c ++ escaped_by escaped text

unfoldable pub raw_entries : Bool → Fields → Bytes
raw_entries first [] = []
raw_entries first ((k, v) ∷ nf) =
    (if first then [] else b',' ∷ [])
    ++ ((quote ∷ escaped_by key_escaped k)
        ++ ((quote ∷ b':' ∷ quote ∷ escaped_by value_escaped v) ++ (quote ∷ raw_entries false nf)))

-- The text of the fields in a row of a raw frame.
unfoldable pub fields_json : Fields → Bytes
fields_json nf = b'{' ∷ (raw_entries true nf ++ (b'}' ∷ []))

abbrev pub call_sign_of : Fields → Bytes
call_sign_of nf =
    let call = text_or_empty (lookup (codes "callsign") nf) in
    if is_empty call then text_or_empty (lookup (codes "call_sign") nf) else call

abbrev pub is_stored_type : SignalType → Bool
is_stored_type ais = true
is_stored_type adsb = true
is_stored_type _ = false

abbrev pub source_of : SignalType → Bytes
source_of adsb = codes "ADSB"
source_of _ = codes "AIS"

abbrev pub id_key_of : SignalType → Bytes
id_key_of adsb = codes "icao"
id_key_of _ = codes "mmsi"

abbrev pub tagged : Bytes → Option Bytes → Bytes
tagged tag none = []
tagged tag (some value) = tag ++ value

abbrev pub msg_type_of : SignalType → Fields → Bytes
msg_type_of adsb nf = tagged (codes "DF") (lookup (codes "df") nf)
msg_type_of _ nf = tagged (codes "T") (lookup (codes "msg_type") nf)
