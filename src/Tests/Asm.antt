-- ===== src/Tests/Asm.antt =====
-- The theorems of the ASM decoder at concrete inputs.
use multi_radio.Common.{
  ℕ, ◌+◌, ◌*◌, ◌<◌, ◌≡◌, refl, Bool, ◌&&◌, none, some, List, [], ◌∷◌, ◌++◌, map, arith, leb,
  is_some, length, take, Bytes, codes,
}
use multi_radio.Ais.Bits.{ℤ, ais_bits}
use multi_radio.Ais.Hdlc.{new_ctx, bits_of}
use multi_radio.Ais.Nrzi.{hex_of, hex_digit, pack}
use multi_radio.Ais.Packing.{take-packed}
use multi_radio.Ais.Crc.{crc16_byte, crc16, fcs_of}
use multi_radio.Ais.Sender.{frame_bits, flag, send, with_fcs}
use multi_radio.Ais.Stuffing.{stuff}
use multi_radio.Ais.Guards.{minimum_of}
use multi_radio.Asm.Format.{ais_u}
use multi_radio.Asm.Weather.{Unwritten}
use multi_radio.Asm.Binary.{dispatch_dac001}
use multi_radio.Asm.Decoder.{dispatch_frame, process_bits}
use multi_radio.Asm.Guards.{asm_minima, dispatch_frame-guards}
use multi_radio.Asm.Fields.{IsOfType, dispatch_dac001-IsOfType}
use multi_radio.Asm.SharedFrames.{Mirrors, dispatch_frame-Mirrors}
use multi_radio.Ais.Dispatch.{decode_and_emit}
use multi_radio.Asm.Handoff.{ReadsPairs, process_bits-two_ways}
use multi_radio.Tests.Ais.{text, text-IsSendable, digit_of}

abbrev no_texts : Unwritten
no_texts = record { ws = []; wd = []; at = []; rh = []; dp = []; pr = []; vi = []; sw = [] }

abbrev no_print : ℤ → Bytes
no_print n = codes "0.00000"

abbrev scan_pair : ℕ → ℕ → ℕ
scan_pair hi lo = 16 * digit_of hi + digit_of lo

digit_of-hex_digit : (n : ℕ) → n < 16 → digit_of (hex_digit n) ≡ n
digit_of-hex_digit n h = ground arith

scan_pair-reads : ReadsPairs scan_pair
scan_pair-reads hi lo h l = rw (digit_of-hex_digit hi h, digit_of-hex_digit lo l) refl

abbrev sent_bits : List Bool
sent_bits = flag ++ send (map with_fcs (text ∷ []))

sent_bits-packed : take (length sent_bits) (bits_of (pack sent_bits)) ≡ sent_bits
sent_bits-packed = take-packed sent_bits

sent_bits-some : 0 < length sent_bits
unfolding send with_fcs fcs_of crc16 crc16_byte stuff frame_bits
sent_bits-some = omega arith

process_bits-two_ways_example :
    (process_bits no_print no_texts scan_pair new_ctx (pack sent_bits) (length sent_bits) none).1
    ≡ (process_bits no_print no_texts scan_pair new_ctx
        (hex_of (with_fcs text) ++ (0 ∷ 7 ∷ []))
        99
        (some (codes "AIS_MSG8_RAW"))).1
process_bits-two_ways_example =
    process_bits-two_ways no_print no_texts scan_pair new_ctx new_ctx (pack sent_bits) (7 ∷ [])
      (length sent_bits) 99 none (some (codes "AIS_MSG8_RAW")) text sent_bits-packed sent_bits-some
      (omega arith) refl refl refl scan_pair-reads (text-IsSendable, omega arith, omega arith)

dispatch_frame-guards_example :
    is_some (dispatch_frame no_print no_texts (32 ∷ 0 ∷ 0 ∷ 0 ∷ 0 ∷ 0 ∷ []))
    ≡ (leb 5 6 && leb (minimum_of asm_minima (ais_u (32 ∷ 0 ∷ 0 ∷ 0 ∷ []) 0 6)) 4)
dispatch_frame-guards_example =
    dispatch_frame-guards no_print no_texts (32 ∷ 0 ∷ 0 ∷ 0 ∷ 0 ∷ 0 ∷ [])

dispatch_dac001-IsOfType_example :
    IsOfType
      (codes "AIS_ASM_ROUTE")
      8
      265547250
      (dispatch_dac001 no_print no_texts (32 ∷ 0 ∷ 0 ∷ []) 56 27 265547250 8)
dispatch_dac001-IsOfType_example =
    dispatch_dac001-IsOfType no_print no_texts (32 ∷ 0 ∷ 0 ∷ []) 56 27 265547250 8

-- A position report with its two check bytes.
abbrev report_frame : List ℕ
report_frame =
    4 ∷ 0 ∷ 0 ∷ 0 ∷ 0 ∷ 0 ∷ 0 ∷ 0 ∷ 0 ∷ 0 ∷ 0 ∷ 0 ∷ 0 ∷ 0 ∷ 0 ∷ 0 ∷ 0 ∷ 0 ∷ 0 ∷ 0 ∷ 0 ∷ 0 ∷ 0 ∷ []

dispatch_frame-Mirrors_example :
    Mirrors [] (dispatch_frame no_print no_texts report_frame) (decode_and_emit report_frame)
unfolding ais_bits
dispatch_frame-Mirrors_example = dispatch_frame-Mirrors no_print no_texts report_frame refl
