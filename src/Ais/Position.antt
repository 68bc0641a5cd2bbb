-- ===== src/Ais/Position.antt =====
-- Position reports of class A as a transponder sends them, and what plugins/ais_decoder.c is to emit
-- for them.
use multi_radio.Common.{
  ℕ, ◌^◌, ◌≤◌, ◌<◌, not, ◌||◌, Option, none, some, List, [], ◌∷◌, is_some, Bytes, codes,
}
use multi_radio.Ais.Nrzi.{pack}
use multi_radio.Ais.Bits.{ℤ, pos}
use multi_radio.Ais.Format.{decimal, degrees, decimal_or_minus_one}
use multi_radio.Ais.Messages.{Emitted, position_message}
use multi_radio.Ais.Signed.{message_bits, twos_complement, magnitude}

-- What is not available is `none`. The last field stands for the rest of the message.
pub record PositionReport : Type 0 where
  pub msg_type : ℕ
  pub repeat : ℕ
  pub mmsi : ℕ
  pub nav_status : ℕ
  pub rate_of_turn : ℕ
  pub sog : ℕ
  pub accuracy : ℕ
  pub lon : Option ℤ
  pub lat : Option ℤ
  pub cog : ℕ
  pub true_heading : Option ℕ
  pub others : ℕ

abbrev pub raw_degrees : ℕ → Option ℤ → ℤ
raw_degrees sentinel none = pos sentinel
raw_degrees sentinel (some z) = z

abbrev pub raw_heading : Option ℕ → ℕ
raw_heading none = 511
raw_heading (some h) = h

-- The fields with their lengths.
abbrev pub report_fields : PositionReport → List (ℕ × ℕ)
report_fields r =
    (6, r.msg_type)
    ∷ (2, r.repeat)
    ∷ (30, r.mmsi)
    ∷ (4, r.nav_status)
    ∷ (8, r.rate_of_turn)
    ∷ (10, r.sog)
    ∷ (1, r.accuracy)
    ∷ (28, twos_complement 28 (raw_degrees 108600000 r.lon))
    ∷ (27, twos_complement 27 (raw_degrees 54600000 r.lat))
    ∷ (12, r.cog)
    ∷ (9, raw_heading r.true_heading)
    ∷ (31, r.others)
    ∷ []

abbrev pub InDegrees : ℕ → Option ℤ → Type 0
InDegrees bound none = Unit
InDegrees bound (some z) = magnitude z ≤ bound

abbrev pub IsHeading : Option ℕ → Type 0
IsHeading none = Unit
IsHeading (some h) = h < 360

-- The values that the fields of a report may have.
pub record IsReport (r : PositionReport) : Type 0 where
  pub class_a : (1 ≤ r.msg_type) × (r.msg_type ≤ 3)
  pub mmsi_bound : r.mmsi < 2 ^ 30
  pub nav_bound : r.nav_status < 2 ^ 4
  pub sog_bound : r.sog < 2 ^ 10
  pub acc_bound : r.accuracy < 2
  pub lon_bound : InDegrees 108000000 r.lon
  pub lat_bound : InDegrees 54000000 r.lat
  pub cog_bound : r.cog < 2 ^ 12
  pub heading_bound : IsHeading r.true_heading

abbrev pub degrees_or_na : Option ℤ → Bytes
degrees_or_na none = codes "N/A"
degrees_or_na (some z) = degrees z

-- What is to be emitted for a report.
abbrev pub report_emission : PositionReport → Emitted
report_emission r =
    position_message r.msg_type (decimal r.mmsi) (some r.nav_status)
      (not (is_some r.lat) || not (is_some r.lon)) (degrees_or_na r.lat) (degrees_or_na r.lon) r.sog
      r.cog (decimal_or_minus_one r.true_heading) r.accuracy

abbrev pub report_text : PositionReport → List ℕ
report_text r = pack (message_bits (report_fields r))
