-- ===== src/Ais/Dispatch.antt =====
-- `decode_and_emit` of plugins/ais_decoder.c: which messages are emitted, and as what. Memory is
-- always given.
use multi_radio.Common.{
  ℕ, ◌-◌, ◌||◌, Option, none, some, List, [], ◌∷◌, ltb, leb, ◌==◌, if◌then◌else◌, length, take,
  Bytes, codes,
}
use multi_radio.Ais.Bits.{ais_bits}
use multi_radio.Ais.Format.{decimal}
use multi_radio.Ais.Nrzi.{hex_of}
use multi_radio.Ais.Messages.{Emitted, mmsi_of, decode_position}
use multi_radio.Ais.StaticData.{decode_voyage, decode_static24}
use multi_radio.Ais.OtherReports.{
  decode_sar_position, decode_base_station, decode_aton, decode_extended_position,
}

-- `data_bytes >= 5 ? ais_bits(...) : 0`.
abbrev pub mmsi_or_zero : List ℕ → Bytes
mmsi_or_zero d = if leb 5 (length d) then mmsi_of d else codes "0"

-- The frame is emitted whole, with its check bytes.
abbrev pub emit_msg_raw_for_asm : List ℕ → List ℕ → ℕ → Bytes → Emitted
emit_msg_raw_for_asm frame_buf d msg_type signal_name = record {
  signal_type = signal_name;
  payload = hex_of frame_buf;
  kv =
      (codes "signal_type", signal_name)
      ∷ (codes "msg_type", decimal msg_type)
      ∷ (codes "mmsi", mmsi_or_zero d)
      ∷ (codes "frame_bytes", decimal (length frame_buf))
      ∷ [];
}

-- A message of any other type.
abbrev pub emit_other : List ℕ → ℕ → Emitted
emit_other d msg_type = record {
  signal_type = codes "AIS_OTHER";
  payload = hex_of d;
  kv =
      (codes "signal_type", codes "AIS_OTHER")
      ∷ (codes "msg_type", decimal msg_type)
      ∷ (codes "mmsi", mmsi_or_zero d)
      ∷ (codes "byte_count", decimal (length d))
      ∷ [];
}

-- `if (data_bytes < minimum) return;`.
abbrev pub at_least : ℕ → List ℕ → Emitted → Option Emitted
at_least minimum d emitted = if ltb (length d) minimum then none else some emitted

-- The `switch`, on the message without its check bytes.
unfoldable pub dispatch : List ℕ → List ℕ → ℕ → Option Emitted
dispatch frame_buf d msg_type =
    if msg_type == 1 || (msg_type == 2 || (msg_type == 3 || msg_type == 18))
    then at_least 21 d (decode_position d msg_type)
    else if msg_type == 9
    then at_least 21 d (decode_sar_position d)
    else if msg_type == 4
    then at_least 21 d (decode_base_station d)
    else if msg_type == 5
    then at_least 53 d (decode_voyage d)
    else if msg_type == 6
    then at_least 11 d (emit_msg_raw_for_asm frame_buf d 6 (codes "AIS_MSG6_RAW"))
    else if msg_type == 8
    then at_least 7 d (emit_msg_raw_for_asm frame_buf d 8 (codes "AIS_MSG8_RAW"))
    else if msg_type == 12
    then at_least 9 d (emit_msg_raw_for_asm frame_buf d 12 (codes "AIS_MSG12_RAW"))
    else if msg_type == 14
    then at_least 5 d (emit_msg_raw_for_asm frame_buf d 14 (codes "AIS_MSG14_RAW"))
    else if msg_type == 21
    then at_least 34 d (decode_aton d)
    else if msg_type == 19
    then at_least 39 d (decode_extended_position d)
    else if msg_type == 24
    then at_least 20 d (decode_static24 d)
    else some (emit_other d msg_type)

unfoldable pub decode_and_emit : List ℕ → Option Emitted
decode_and_emit frame_buf =
    let d = take (length frame_buf - 2) frame_buf in
    if ltb (length frame_buf) 5 then none else dispatch frame_buf d (ais_bits d 0 6)

abbrev pub add_emitted : Option Emitted → List Emitted → List Emitted
add_emitted none es = es
add_emitted (some e) es = e ∷ es

-- What the plugin emits for the frames that it finds, in order.
unfoldable pub emitted : List (List ℕ) → List Emitted
emitted [] = []
emitted (frame ∷ frames) = add_emitted (decode_and_emit frame) (emitted frames)
