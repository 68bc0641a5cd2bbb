-- ===== src/Asm/Decoder.antt =====
-- `dispatch_frame` and `mr_plugin_process_bits` of plugins/asm_decoder.c. The framing and its state are
-- the text of plugins/ais_decoder.c. `scan_byte` is `(uint8_t)strtol` of two characters to the base 16.
use multi_radio.Common.{
  ℕ, suc, Bool, false, ◌||◌, Option, none, some, List, [], ◌∷◌, ltb, leb, ◌==◌, if◌then◌else◌,
  length, Bytes, codes, same,
}
use multi_radio.Ais.Bits.{ℤ}
use multi_radio.Ais.Format.{decimal}
use multi_radio.Ais.Hdlc
use multi_radio.Ais.Hdlc.{AisCtx, hdlc_max_frame}
use multi_radio.Ais.Messages.{Emitted, concat}
use multi_radio.Asm.Format.{ais_u}
use multi_radio.Asm.Weather.{Unwritten}
use multi_radio.Asm.Binary.{message, decode_msg6, decode_msg8, decode_msg12, decode_msg14}
use multi_radio.Asm.Standard.{
  decode_position, decode_base_station, decode_voyage, decode_aton, decode_static24,
}

unfoldable pub other_frame : List ℕ → ℕ → Emitted
other_frame d msg_type =
    let mmsi = decimal (if leb 5 (length d) then ais_u d 8 30 else 0) in
    record {
      signal_type = codes "AIS_OTHER";
      payload = concat (codes "MMSI:" ∷ mmsi ∷ codes " Type:" ∷ decimal msg_type ∷ []);
      kv =
          (codes "signal_type", codes "AIS_OTHER")
          ∷ (codes "msg_type", decimal msg_type)
          ∷ (codes "mmsi", mmsi)
          ∷ (codes "byte_count", decimal (length d))
          ∷ [];
    }

-- A message with bytes enough.
abbrev pub at_least : ℕ → List ℕ → Emitted → Option Emitted
at_least n d e = if leb n (length d) then some e else none

unfoldable pub dispatch_type : (ℤ → Bytes) → Unwritten → List ℕ → List ℕ → ℕ → Option Emitted
dispatch_type print5 t frm d msg_type =
    if msg_type == 6
    then decode_msg6 print5 t frm
    else if msg_type == 8
    then decode_msg8 print5 t frm
    else if msg_type == 12
    then decode_msg12 frm
    else if msg_type == 14
    then decode_msg14 frm
    else if (msg_type == 1 || msg_type == 2) || (msg_type == 3 || msg_type == 18)
    then at_least 21 d (decode_position d msg_type)
    else if msg_type == 4
    then at_least 21 d (decode_base_station d)
    else if msg_type == 5
    then at_least 53 d (decode_voyage d)
    else if msg_type == 21
    then at_least 34 d (decode_aton d)
    else if msg_type == 24
    then at_least 20 d (decode_static24 d)
    else some (other_frame d msg_type)

unfoldable pub dispatch_frame : (ℤ → Bytes) → Unwritten → List ℕ → Option Emitted
dispatch_frame print5 t frm =
    let d = message frm in
    if ltb (length frm) 5 then none else dispatch_type print5 t frm d (ais_u d 0 6)

-- The bytes of pairs of characters in front of a NUL, as many as there is room for. The text is
-- the memory from the pointer on.
unfoldable pub hex_to_bytes : (ℕ → ℕ → ℕ) → List ℕ → ℕ → List ℕ
hex_to_bytes scan_byte (hi ∷ lo ∷ text) (suc room) =
    let rest = hex_to_bytes scan_byte text room in
    if hi == 0 || lo == 0 then [] else scan_byte hi lo ∷ rest
hex_to_bytes scan_byte _ _ = []

abbrev pub is_handoff : Option Bytes → Bool
is_handoff none = false
is_handoff (some source) =
    same source (codes "AIS_MSG6_RAW")
    || (same source (codes "AIS_MSG8_RAW")
        || (same source (codes "AIS_MSG12_RAW") || same source (codes "AIS_MSG14_RAW")))

unfoldable pub emit_frames : (ℤ → Bytes) → Unwritten → List (List ℕ) → List Emitted
emit_frames print5 t [] = []
emit_frames print5 t (frame ∷ frames) = elim (dispatch_frame print5 t frame) [
  | none ↦ emit_frames print5 t frames
  | some e ↦ e ∷ emit_frames print5 t frames
]

-- The bits, and the memory from their pointer on, which the handoff reads as a text.
unfoldable pub process_bits :
    (ℤ → Bytes)
    → Unwritten
    → (ℕ → ℕ → ℕ)
    → AisCtx
    → List ℕ
    → ℕ
    → Option Bytes
    → AisCtx × List Emitted
process_bits print5 t scan_byte ctx memory bit_count source =
    let (end, frames) = Hdlc.process_bits ctx memory bit_count in
    let handed = hex_to_bytes scan_byte memory hdlc_max_frame in
    if bit_count == 0
    then (ctx, [])
    else if is_handoff source
    then (ctx, if leb 5 (length handed) then emit_frames print5 t (handed ∷ []) else [])
    else (end, emit_frames print5 t frames)
