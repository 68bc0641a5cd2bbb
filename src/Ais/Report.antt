-- ===== src/Ais/Report.antt =====
-- Position reports of class A through `decode_and_emit` of plugins/ais_decoder.c.
use multi_radio.Common.{
  ℕ, ◌-◌, ◌^◌, ◌<◌, ◌≡◌, refl, ap, ◌∙◌, true, false, not, ◌||◌, Option, none, some, List, [], ◌∷◌,
  ◌++◌, arith, ltb, leb, ◌==◌, if◌then◌else◌, ==_refl, is_some, length, take, drop, replicate,
  length-append, length-replicate, take-append, codes,
}
use multi_radio.Ais.Nrzi.{pack}
use multi_radio.Ais.Packing.{bits_of-pack, length-bits_of}
use multi_radio.Ais.Bits.{ais_bits, ℤ, pos, negsuc, ais_signed}
use multi_radio.Ais.Format.{degrees, decimal_or_minus_one}
use multi_radio.Ais.Messages.{is_na, heading, decode_position}
use multi_radio.Ais.Dispatch.{dispatch, decode_and_emit}
use multi_radio.Ais.Signed.{
  message_bits, length-message_bits, ais_bits-field, magnitude, ais_signed-lat, ais_signed-lon,
}
use multi_radio.Ais.Position.{
  PositionReport, raw_degrees, raw_heading, report_fields, InDegrees, IsHeading, IsReport,
  degrees_or_na, report_emission, report_text,
}

-- A message that holds the fields of a report.
record Holds (d : List ℕ) (r : PositionReport) : Type 0 where
  mmsi_read : ais_bits d 8 30 ≡ r.mmsi
  nav_read : ais_bits d 38 4 ≡ r.nav_status
  sog_read : ais_bits d 50 10 ≡ r.sog
  acc_read : ais_bits d 60 1 ≡ r.accuracy
  lon_read : ais_signed d 61 28 ≡ raw_degrees 108600000 r.lon
  lat_read : ais_signed d 89 27 ≡ raw_degrees 54600000 r.lat
  cog_read : ais_bits d 116 12 ≡ r.cog
  hdg_read : ais_bits d 128 9 ≡ raw_heading r.true_heading

raw_degrees-lt :
    (sentinel bound top : ℕ) (o : Option ℤ)
    → InDegrees bound o
    → sentinel < top
    → bound < top
    → magnitude (raw_degrees sentinel o) < top
raw_degrees-lt sentinel bound top none h hs hb = hs
raw_degrees-lt sentinel bound top (some z) h hs hb = omega arith

raw_heading-lt : (o : Option ℕ) → IsHeading o → raw_heading o < 512
raw_heading-lt none h = omega arith
raw_heading-lt (some x) h = omega arith

report-Holds : (r : PositionReport) → IsReport r → Holds (pack (message_bits (report_fields r))) r
report-Holds r ok =
    let fs = report_fields r in
    record {
      mmsi_read = ais_bits-field (take 2 fs) (drop 3 fs) 30 r.mmsi ok.mmsi_bound;
      nav_read = ais_bits-field (take 3 fs) (drop 4 fs) 4 r.nav_status ok.nav_bound;
      sog_read = ais_bits-field (take 5 fs) (drop 6 fs) 10 r.sog ok.sog_bound;
      acc_read = ais_bits-field (take 6 fs) (drop 7 fs) 1 r.accuracy ok.acc_bound;
      lon_read = ais_signed-lon (take 7 fs) (drop 8 fs) (raw_degrees 108600000 r.lon) (
          raw_degrees-lt 108600000 108000000 (2 ^ 27) r.lon ok.lon_bound (omega arith)
            (omega arith));
      lat_read = ais_signed-lat (take 8 fs) (drop 9 fs) (raw_degrees 54600000 r.lat) (
          raw_degrees-lt 54600000 54000000 (2 ^ 26) r.lat ok.lat_bound (omega arith) (omega arith));
      cog_read = ais_bits-field (take 9 fs) (drop 10 fs) 12 r.cog ok.cog_bound;
      hdg_read =
          ais_bits-field (take 10 fs) (drop 11 fs) 9 (raw_heading r.true_heading)
            (raw_heading-lt r.true_heading ok.heading_bound);
    }

heading-raw : (o : Option ℕ) → IsHeading o → heading (raw_heading o) ≡ decimal_or_minus_one o
heading-raw none h = refl
heading-raw (some x) h = let other : (x == 511) ≡ false = ground arith in rw other refl

-- A value that is in range is not the sentinel.
is_na-raw :
    (sentinel bound : ℕ) (o : Option ℤ)
    → InDegrees bound o
    → bound < sentinel
    → is_na sentinel (raw_degrees sentinel o) ≡ not (is_some o)
is_na-raw sentinel bound none h less = ==_refl sentinel
is_na-raw sentinel bound (some (pos n)) h less = ground arith
is_na-raw sentinel bound (some (negsuc n)) h less = refl

degrees-raw :
    (sentinel bound : ℕ) (o : Option ℤ)
    → InDegrees bound o
    → bound < sentinel
    → (if is_na sentinel (raw_degrees sentinel o)
        then codes "N/A"
        else degrees (raw_degrees sentinel o))
      ≡ degrees_or_na o
degrees-raw sentinel bound none h less = rw (==_refl sentinel) refl
degrees-raw sentinel bound (some z) h less = rw (is_na-raw sentinel bound (some z) h less) refl

decode_position-Holds :
    (d : List ℕ) (r : PositionReport)
    → IsReport r
    → Holds d r
    → decode_position d r.msg_type ≡ report_emission r
unfolding decode_position
decode_position-Holds d r ok held =
    let a : leb r.msg_type 3 ≡ true = ground (arith, ok.class_a) in
    rw
      (
        a,
        held.mmsi_read,
        held.nav_read,
        held.sog_read,
        held.acc_read,
        held.lon_read,
        held.lat_read,
        held.cog_read,
        held.hdg_read,
        heading-raw r.true_heading ok.heading_bound,
        degrees-raw 108600000 108000000 r.lon ok.lon_bound (omega arith),
        degrees-raw 54600000 54000000 r.lat ok.lat_bound (omega arith),
        is_na-raw 108600000 108000000 r.lon ok.lon_bound (omega arith),
        is_na-raw 54600000 54000000 r.lat ok.lat_bound (omega arith),
      )
      refl

pub report-length : (r : PositionReport) → length (pack (message_bits (report_fields r))) ≡ 21
report-length r =
    let bits = message_bits (report_fields r) in
    let (m, few, held) = bits_of-pack bits in
    omega (
      arith,
      length-bits_of (pack bits),
      few,
      ap length held,
      length-append bits (replicate m false),
      length-replicate m false,
      length-message_bits (report_fields r),
    )

dispatch-report :
    (frame d : List ℕ) (r : PositionReport)
    → IsReport r
    → length d ≡ 21
    → Holds d r
    → dispatch frame d r.msg_type ≡ some (report_emission r)
unfolding dispatch
dispatch-report frame d r ok size held =
    let a : (r.msg_type == 1 || (r.msg_type == 2 || (r.msg_type == 3 || r.msg_type == 18))) ≡ true =
      ground (arith, ok.class_a) in
    rw (a, size, decode_position-Holds d r ok held) refl

frame-text :
    (d : List ℕ) (low high : ℕ)
    → take (length (d ++ (low ∷ high ∷ [])) - 2) (d ++ (low ∷ high ∷ [])) ≡ d
frame-text d low high =
    ap (λ n. take n (d ++ (low ∷ high ∷ []))) (omega (arith, length-append d (low ∷ high ∷ [])))
    ∙ take-append d (low ∷ high ∷ [])

-- A position report of class A is emitted with the values that its sender gave, wherever they stand
-- among the bits: positive and negative degrees to six digits, and as not available what was sent as
-- not available. The frame holds the report and two check bytes.
pub decode_and_emit-report :
    (r : PositionReport) (low high : ℕ)
    → IsReport r
    → decode_and_emit (report_text r ++ (low ∷ high ∷ [])) ≡ some (report_emission r)
unfolding decode_and_emit
decode_and_emit-report r low high ok =
    let d = report_text r in
    let long : ltb (length (d ++ (low ∷ high ∷ []))) 5 ≡ false =
      ground (arith, length-append d (low ∷ high ∷ []), report-length r) in
    let type_read =
      ais_bits-field [] (drop 1 (report_fields r)) 6 r.msg_type (omega (arith, ok.class_a.1)) in
    rw (long, frame-text d low high)
      (ap (dispatch (d ++ (low ∷ high ∷ [])) d) type_read
        ∙ dispatch-report (d ++ (low ∷ high ∷ [])) d r ok (report-length r) (report-Holds r ok))
