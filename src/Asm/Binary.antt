-- ===== src/Asm/Binary.antt =====
-- The messages 6, 8, 12 and 14 of plugins/asm_decoder.c. `frm` is a frame with its check bytes.
use multi_radio.Common.{
  ℕ, ◌-◌, ◌*◌, ◌/◌, Option, none, some, List, [], ◌∷◌, ltb, ◌==◌, if◌then◌else◌, length, take,
  Bytes, codes,
}
use multi_radio.Ais.Bits.{ℤ}
use multi_radio.Ais.Format.{decimal}
use multi_radio.Ais.Messages.{Emitted, concat}
use multi_radio.Asm.Format.{ais_u, ais_str, hex_encode, chars_left, asm_emission}
use multi_radio.Asm.Weather.{decode_fi11_21, Unwritten, decode_fi31}
use multi_radio.Asm.Notices.{decode_fi13, decode_fi16, decode_fi17, decode_fi22, decode_fi26}
use multi_radio.Asm.Routes.{decode_fi27, decode_fi28, decode_fi29, decode_fi32}

unfoldable pub unknown_fi : List ℕ → ℕ → ℕ → ℕ → ℕ → Emitted
unknown_fi d app_off fi mmsi msg_type =
    let hex = hex_encode d (app_off / 8) in
    asm_emission (codes "AIS_ASM_UNKNOWN") msg_type mmsi
      ((codes "mmsi", decimal mmsi)
        ∷ (codes "dac", codes "1")
        ∷ (codes "fi", decimal fi)
        ∷ (codes "hex", hex)
        ∷ [])
      (concat (
        codes "ASM MMSI:"
        ∷ decimal mmsi
        ∷ codes " DAC:1 FI:"
        ∷ decimal fi
        ∷ codes " Data:"
        ∷ hex
        ∷ []))

unfoldable pub dispatch_dac001 : (ℤ → Bytes) → Unwritten → List ℕ → ℕ → ℕ → ℕ → ℕ → Emitted
dispatch_dac001 print5 t d app_off fi mmsi msg_type =
    if fi == 11
    then decode_fi11_21 d app_off mmsi 11 msg_type
    else if fi == 13
    then decode_fi13 d app_off mmsi msg_type
    else if fi == 16
    then decode_fi16 d app_off mmsi msg_type
    else if fi == 17
    then decode_fi17 d app_off mmsi msg_type
    else if fi == 21
    then decode_fi11_21 d app_off mmsi 21 msg_type
    else if fi == 22
    then decode_fi22 d app_off mmsi msg_type
    else if fi == 26
    then decode_fi26 d app_off mmsi msg_type
    else if fi == 27
    then decode_fi27 d app_off mmsi msg_type
    else if fi == 28
    then decode_fi28 d app_off mmsi msg_type
    else if fi == 29
    then decode_fi29 print5 d app_off mmsi msg_type
    else if fi == 31
    then decode_fi31 print5 t d app_off mmsi msg_type
    else if fi == 32
    then decode_fi32 print5 d app_off mmsi msg_type
    else unknown_fi d app_off fi mmsi msg_type

-- The message of a frame: all but its two check bytes.
abbrev pub message : List ℕ → List ℕ
message frm = take (length frm - 2) frm

unfoldable pub binary6 : List ℕ → Emitted
binary6 d =
    let src_mmsi = ais_u d 8 30 in
    let dst_mmsi = ais_u d 40 30 in
    let dac = ais_u d 72 10 in
    let fi = ais_u d 82 6 in
    let hex = hex_encode d 11 in
    asm_emission (codes "AIS_MSG6") 6 src_mmsi
      ((codes "src_mmsi", decimal src_mmsi)
        ∷ (codes "dst_mmsi", decimal dst_mmsi)
        ∷ (codes "dac", decimal dac)
        ∷ (codes "fi", decimal fi)
        ∷ (codes "hex", hex)
        ∷ [])
      (concat (
        codes "MSG6 Src:"
        ∷ decimal src_mmsi
        ∷ codes " Dst:"
        ∷ decimal dst_mmsi
        ∷ codes " DAC:"
        ∷ decimal dac
        ∷ codes " FI:"
        ∷ decimal fi
        ∷ codes " Data:"
        ∷ hex
        ∷ []))

unfoldable pub decode_msg6 : (ℤ → Bytes) → Unwritten → List ℕ → Option Emitted
decode_msg6 print5 t frm =
    let d = message frm in
    if ltb (length frm) 12
    then none
    else if ais_u d 72 10 == 1
    then some (dispatch_dac001 print5 t d 88 (ais_u d 82 6) (ais_u d 8 30) 6)
    else some (binary6 d)

unfoldable pub binary8 : List ℕ → Emitted
binary8 d =
    let mmsi = ais_u d 8 30 in
    let dac = ais_u d 40 10 in
    let fi = ais_u d 50 6 in
    let hex = hex_encode d 7 in
    record {
      signal_type = codes "AIS_MSG8";
      payload = concat (
          codes "MSG8 MMSI:"
          ∷ decimal mmsi
          ∷ codes " DAC:"
          ∷ decimal dac
          ∷ codes " FI:"
          ∷ decimal fi
          ∷ codes " Data:"
          ∷ hex
          ∷ []);
      kv =
          (codes "signal_type", codes "AIS_MSG8")
          ∷ (codes "mmsi", decimal mmsi)
          ∷ (codes "dac", decimal dac)
          ∷ (codes "fi", decimal fi)
          ∷ (codes "hex", hex)
          ∷ [];
    }

unfoldable pub decode_msg8 : (ℤ → Bytes) → Unwritten → List ℕ → Option Emitted
decode_msg8 print5 t frm =
    let d = message frm in
    if ltb (length frm) 7
    then none
    else if ais_u d 40 10 == 1
    then some (dispatch_dac001 print5 t d 56 (ais_u d 50 6) (ais_u d 8 30) 8)
    else some (binary8 d)

unfoldable pub decode_msg12 : List ℕ → Option Emitted
decode_msg12 frm =
    let d = message frm in
    let src = ais_u d 8 30 in
    let dst = ais_u d 40 30 in
    let text = ais_str d 72 (chars_left (length d * 8 - 72)) in
    if ltb (length frm) 10
    then none
    else some (
        asm_emission (codes "AIS_MSG12") 12 src
          ((codes "src_mmsi", decimal src)
            ∷ (codes "dst_mmsi", decimal dst)
            ∷ (codes "text", text)
            ∷ [])
          (concat (
            codes "Safety(addr) Src:"
            ∷ decimal src
            ∷ codes " Dst:"
            ∷ decimal dst
            ∷ codes " \""
            ∷ text
            ∷ codes "\""
            ∷ [])))

unfoldable pub decode_msg14 : List ℕ → Option Emitted
decode_msg14 frm =
    let d = message frm in
    let mmsi = ais_u d 8 30 in
    let text = ais_str d 40 (chars_left (length d * 8 - 40)) in
    if ltb (length frm) 6
    then none
    else some (
        asm_emission (codes "AIS_MSG14") 14 mmsi
          ((codes "mmsi", decimal mmsi) ∷ (codes "text", text) ∷ [])
          (concat
            (codes "Safety(bcast) MMSI:" ∷ decimal mmsi ∷ codes " \"" ∷ text ∷ codes "\"" ∷ [])))
