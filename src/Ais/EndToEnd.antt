-- ===== src/Ais/EndToEnd.antt =====
-- From a transponder to what the two plugins emit: plugins/nrzi_decoder.c and plugins/ais_decoder.c.
use multi_radio.Common.{
  ℕ, ◌+◌, ◌^◌, ◌<◌, ◌≡◌, refl, ap, ◌∙◌, false, Option, List, [], ◌∷◌, ◌++◌, map, arith, length, All,
  Bytes,
}
use multi_radio.Ais.Crc.{fcs_of}
use multi_radio.Ais.Hdlc.{AisCtx}
use multi_radio.Ais.Sender.{flag, send, with_fcs, IsSendable}
use multi_radio.Ais.Nrzi.{NrziCtx}
use multi_radio.Ais.Hex.{ReadsDigits, pack-bytes}
use multi_radio.Ais.Line.{encode, last_of, frames_through, line_frames}
use multi_radio.Ais.Dispatch.{emitted}
use multi_radio.Ais.Signed.{message_bits}
use multi_radio.Ais.Position.{PositionReport, report_fields, IsReport, report_emission, report_text}
use multi_radio.Ais.Report.{report-length, decode_and_emit-report}

report_text-IsSendable : (r : PositionReport) → IsSendable (report_text r)
report_text-IsSendable r = (
  pack-bytes (message_bits (report_fields r)),
  omega (arith, report-length r),
  omega (arith, report-length r),
)

report_texts-IsSendable : (rs : List PositionReport) → All IsSendable (map report_text rs)
report_texts-IsSendable [] = tt
report_texts-IsSendable (r ∷ rs) = (report_text-IsSendable r, report_texts-IsSendable rs)

emitted-reports :
    (rs : List PositionReport)
    → All IsReport rs
    → emitted (map with_fcs (map report_text rs)) ≡ map report_emission rs
unfolding emitted with_fcs fcs_of
emitted-reports [] ok = refl
emitted-reports (r ∷ rs) ok =
    rw (decode_and_emit-report r _ _ ok.0)
      (ap (λ es. report_emission r ∷ es) (emitted-reports rs ok.1))

-- Position reports of class A that are framed, stuffed and sent over the line behind a flag are
-- emitted by the two plugins, one behind the other, with the values that their sender gave, in order.
-- The line may be inverted or not and starts from the last bit that the decoder keeps for the
-- source; the framing stands outside a frame; the whole is shorter than 2 ^ 32 - 8 bits, and `sscanf`
-- reads the digits that `snprintf` wrote.
pub line_reports :
    (scan_hex : Bytes → Option ℕ) (n : NrziCtx) (c : AisCtx) (source : Option Bytes)
    (rs : List PositionReport)
    → ReadsDigits scan_hex
    → c.in_frame ≡ false
    → All IsReport rs
    → length (flag ++ send (map with_fcs (map report_text rs))) + 8 < 2 ^ 32
    → emitted (
        frames_through scan_hex n c
          (encode n.invert (last_of n source) (flag ++ send (map with_fcs (map report_text rs))))
          source)
      ≡ map report_emission rs
line_reports scan_hex n c source rs reads off ok short =
    ap emitted (
      line_frames scan_hex n c source (map report_text rs) reads off (report_texts-IsSendable rs)
        short)
    ∙ emitted-reports rs ok
