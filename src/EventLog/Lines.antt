-- ===== src/EventLog/Lines.antt =====
-- The lines that backend/src/jsonl_logger.cpp writes. `to_stream` is what an `std::ostream` writes of
-- a double.
use multi_radio.Common.{
  ℕ, Bool, true, false, List, [], ◌∷◌, ◌++◌, ◌==◌, if◌then◌else◌, Bytes, codes,
}
use multi_radio.Types.Data.{EventKind, ReceiverEvent, DecodedMessage}
use multi_radio.Types.Names.{signal_type_to_string}
use multi_radio.Ais.Format.{decimal}
use multi_radio.Ais.Messages.{concat}
use multi_radio.Names.Json.{quote, backslash}

abbrev pub escaped_byte : ℕ → Bytes
escaped_byte c =
    if c == quote
    then backslash ∷ quote ∷ []
    else if c == backslash
    then backslash ∷ backslash ∷ []
    else if c == 10
    then backslash ∷ b'n' ∷ []
    else if c == 13
    then backslash ∷ b'r' ∷ []
    else if c == 9
    then backslash ∷ b't' ∷ []
    else c ∷ []

unfoldable pub escape_json : Bytes → Bytes
escape_json [] = []
escape_json (c ∷ value) = escaped_byte c ++ escape_json value

-- A text between quotes.
unfoldable pub quoted : Bytes → Bytes
quoted s = quote ∷ (escape_json s ++ (quote ∷ []))

-- `static_cast<int>(event.kind)`.
abbrev pub kind_number : EventKind → ℕ
kind_number EventKind.info = 0
kind_number EventKind.warning = 1
kind_number EventKind.error = 2
kind_number EventKind.state_change = 3
kind_number EventKind.tune_hop = 4

unfoldable pub field_entry : Bytes × Bytes → Bytes
field_entry (key, value) = quoted key ++ (b':' ∷ quoted value)

unfoldable pub field_entries : Bool → List (Bytes × Bytes) → Bytes
field_entries first [] = []
field_entries first (entry ∷ fields) =
    (if first then [] else b',' ∷ []) ++ (field_entry entry ++ field_entries false fields)

module _ {D : Type 0} (to_stream : D → Bytes) where
  unfoldable pub event_to_json : ReceiverEvent D → Bytes
  event_to_json event = concat (
      codes "{\"type\":\"event\",\"unix_ms\":"
      ∷ decimal event.unix_ms
      ∷ codes ",\"receiver_id\":"
      ∷ decimal event.receiver_id
      ∷ codes ",\"kind\":"
      ∷ quoted (decimal (kind_number event.kind))
      ∷ codes ",\"message\":"
      ∷ quoted event.message
      ∷ codes ",\"tuned_frequency_hz\":"
      ∷ to_stream event.tuned_frequency_hz
      ∷ codes "}"
      ∷ [])

  unfoldable pub message_to_json : DecodedMessage D → Bytes
  message_to_json message = concat (
      codes "{\"type\":\"decoded\",\"unix_ms\":"
      ∷ decimal message.unix_ms
      ∷ codes ",\"receiver_id\":"
      ∷ decimal message.receiver_id
      ∷ codes ",\"signal_type\":"
      ∷ quoted (signal_type_to_string message.signal_type)
      ∷ codes ",\"frequency_hz\":"
      ∷ to_stream message.frequency_hz
      ∷ codes ",\"payload\":"
      ∷ quoted message.payload
      ∷ codes ",\"normalized_fields\":{"
      ∷ field_entries true message.normalized_fields
      ∷ codes "}}"
      ∷ [])
