-- ===== src/Tests/Ais.antt =====
-- The theorems of the AIS plugins at concrete inputs: one report in a frame on a line.
use multi_radio.Ais.HdlcInvariant.{IsValid, IsFrame, receive-IsValid}
use multi_radio.Common.{
  lookup, ℕ, ◌+◌, ◌-◌, ◌*◌, ◌^◌, ◌<◌, ◌≡◌, refl, true, false, ◌&&◌, Option, none, some, List, [],
  ◌∷◌, ◌++◌, map, arith, ltb, leb, if◌then◌else◌, is_some, length, All, Bytes, codes,
}
use multi_radio.Ais.Crc.{crc16_byte, crc16, fcs_of}
use multi_radio.Ais.Hdlc.{new_ctx, receive}
use multi_radio.Ais.Sender.{frame_bits, flag, send, with_fcs}
use multi_radio.Ais.HdlcRoundtrip.{inside, receive-frames}
use multi_radio.Ais.Stuffing.{stuff}
use multi_radio.Ais.Nrzi.{NrziCtx, hex_digit, pack}
use multi_radio.Ais.Hex.{ReadsDigits}
use multi_radio.Ais.Line.{encode, last_of, frames_through}
use multi_radio.Ais.Bits.{pos, negsuc, ais_bits}
use multi_radio.Ais.BitsLaws.{field_bits}
use multi_radio.Ais.Signed.{message_bits}
use multi_radio.Ais.Messages.{kv_json}
use multi_radio.Ais.Dispatch.{decode_and_emit, emitted}
use multi_radio.Ais.Guards.{minimum_of, minima, decode_and_emit-guards}
use multi_radio.Ais.Position.{PositionReport, IsReport, report_emission, report_text}
use multi_radio.Ais.Report.{}
use multi_radio.Ais.Fields.{IsPlain, last_value, read_fields-kv_json}
use multi_radio.Ais.ReportFields.{}
use multi_radio.Ais.EndToEnd.{line_reports}
use multi_radio.Plugins.Fields.{read_fields}

-- A ship at 59.5 degrees north and 18.25 degrees west, with no heading.
abbrev ship : PositionReport
ship = record {
  msg_type = 1;
  repeat = 0;
  mmsi = 265547250;
  nav_status = 5;
  rate_of_turn = 128;
  sog = 123;
  accuracy = 1;
  lon = some (negsuc 10949999);
  lat = some (pos 35700000);
  cog = 2045;
  true_heading = none;
  others = 7;
}

ship-IsReport : IsReport ship
ship-IsReport = record {
  class_a = (omega arith, omega arith);
  mmsi_bound = omega arith;
  nav_bound = omega arith;
  sog_bound = omega arith;
  acc_bound = omega arith;
  lon_bound = omega arith;
  lat_bound = omega arith;
  cog_bound = omega arith;
  heading_bound = tt;
}

abbrev pub digit_of : ℕ → ℕ
digit_of c = if ltb c 58 then c - 48 else c - 55

abbrev pub scan_two : Bytes → Option ℕ
scan_two (hi ∷ lo ∷ rest) = some (16 * digit_of hi + digit_of lo)
scan_two _ = none

digit_of-hex_digit : (n : ℕ) → n < 16 → digit_of (hex_digit n) ≡ n
digit_of-hex_digit n h = ground arith

pub scan_two-reads : ReadsDigits scan_two
scan_two-reads hi lo rest h l = rw (digit_of-hex_digit hi h, digit_of-hex_digit lo l) refl

abbrev inverted : NrziCtx
inverted = record { invert = true; last_bit = true; last_bit_asm = false }

short_line : length (flag ++ send (map with_fcs (map report_text (ship ∷ [])))) + 8 < 2 ^ 32
unfolding send with_fcs fcs_of crc16 crc16_byte stuff frame_bits pack message_bits field_bits
short_line = omega arith

line_reports_example :
    emitted (
      frames_through scan_two inverted new_ctx
        (encode true
          (last_of inverted none)
          (flag ++ send (map with_fcs (map report_text (ship ∷ [])))))
        none)
    ≡ report_emission ship ∷ []
line_reports_example =
    line_reports scan_two inverted new_ctx none (ship ∷ []) scan_two-reads refl (ship-IsReport, tt)
      short_line

-- A text of three bytes.
abbrev pub text : List ℕ
text = 255 ∷ 126 ∷ 31 ∷ []

pub text-IsSendable : All (λ b. b < 256) text
text-IsSendable = (omega arith, (omega arith, (omega arith, tt)))

receive-frames_example :
    receive new_ctx (flag ++ send (map with_fcs (text ∷ text ∷ [])))
    ≡ (inside 0 0 0 [], map with_fcs (text ∷ text ∷ []))
receive-frames_example =
    receive-frames new_ctx (text ∷ text ∷ []) refl (
      (text-IsSendable, omega arith, omega arith),
      ((text-IsSendable, omega arith, omega arith), tt),
    )

decode_and_emit-guards_example :
    is_some (decode_and_emit (4 ∷ 0 ∷ 0 ∷ 0 ∷ []))
    ≡ (leb 5 4 && leb (minimum_of minima (ais_bits (4 ∷ 0 ∷ []) 0 6)) 2)
decode_and_emit-guards_example = decode_and_emit-guards (4 ∷ 0 ∷ 0 ∷ 0 ∷ [])

abbrev name_field : List (Bytes × Bytes)
name_field = (codes "name", codes "ANNA") ∷ (codes "mmsi", codes "1") ∷ []

name_field-IsPlain : IsPlain name_field
name_field-IsPlain = (
  ((refl, (refl, (refl, (refl, tt)))), (refl, (refl, (refl, (refl, tt))))),
  (((refl, (refl, (refl, (refl, tt)))), (refl, tt)), tt),
)

read_fields-kv_json_example :
    (m : List (Bytes × Bytes)) × (read_fields (some (kv_json name_field)) ≡ some m)
    × (lookup (codes "name") m ≡ last_value (codes "name") name_field)
read_fields-kv_json_example = read_fields-kv_json name_field (codes "name") name_field-IsPlain refl

new_ctx-IsValid : IsValid new_ctx
new_ctx-IsValid = record { fits = omega arith; in_byte = omega arith; idle = λ h. refl }

receive-IsValid_example :
    IsValid (receive new_ctx (flag ++ (true ∷ false ∷ flag))).0
    × All (λ frame. IsFrame (some frame)) (receive new_ctx (flag ++ (true ∷ false ∷ flag))).1
receive-IsValid_example = receive-IsValid new_ctx (flag ++ (true ∷ false ∷ flag)) new_ctx-IsValid
