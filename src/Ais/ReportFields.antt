-- ===== src/Ais/ReportFields.antt =====
-- The fields of a position report of plugins/ais_decoder.c in the map of backend/src/plugin_host.cpp.
use multi_radio.Common.{
  ℕ, zero, suc, ◌+◌, ◌*◌, ◌/◌, ◌%◌, ◌≡◌, refl, inl, inr, false, Option, none, some, [], ◌∷◌, ◌++◌,
  arith, ltb, ◌==◌, Bool-cases, any, All-append, Bytes, codes, insert,
}
use multi_radio.Names.Json.{quote}
use multi_radio.Plugins.Fields.{put_field, read_fields}
use multi_radio.Ais.Bits.{ℤ, pos, negsuc}
use multi_radio.Ais.Format.{
  padded, decimal_loop, decimal, tenths, degrees_of, degrees, decimal_or_minus_one,
}
use multi_radio.Ais.Messages.{position_message, kv_json}
use multi_radio.Ais.Fields.{NoQuote, stored, read_fields-stored, IsPlain}
use multi_radio.Ais.Position.{PositionReport, degrees_or_na, report_emission}

-- A literal of the source.
NoQuote-literal : (s : Bytes) → any (λ c. c == quote) s ≡ false → NoQuote s
NoQuote-literal [] h = tt
NoQuote-literal (c ∷ s) h = (ground (arith, h), NoQuote-literal s (ground (arith, h)))

digit-plain : (n : ℕ) → ((48 + n % 10) == quote) ≡ false
digit-plain n = ground arith

NoQuote-digit : (s : Bytes) (n : ℕ) → NoQuote s → NoQuote (s ++ ((48 + n % 10) ∷ []))
NoQuote-digit s n h =
    All-append (λ c. (c == quote) ≡ false) s ((48 + n % 10) ∷ []) h (digit-plain n, tt)

padded-NoQuote : (width n : ℕ) → NoQuote (padded width n)
unfolding padded
padded-NoQuote zero n = tt
padded-NoQuote (suc width) n =
    NoQuote-digit (padded width (n / 10)) n (padded-NoQuote width (n / 10))

decimal_loop-NoQuote : (fuel n : ℕ) → NoQuote (decimal_loop fuel n)
unfolding decimal_loop
decimal_loop-NoQuote zero n = tt
decimal_loop-NoQuote (suc fuel) n = elim (Bool-cases (ltb n 10)) [
  | inl small ↦
      let plain : ((48 + n) == quote) ≡ false = ground arith in rw (small, decimal_loop) (plain, tt)
  | inr large ↦
      rw (large, decimal_loop)
        (NoQuote-digit (decimal_loop fuel (n / 10)) n (decimal_loop-NoQuote fuel (n / 10)))
]

decimal-NoQuote : (n : ℕ) → NoQuote (decimal n)
unfolding decimal
decimal-NoQuote n = decimal_loop-NoQuote 20 n

tenths-NoQuote : (n : ℕ) → NoQuote (tenths n)
unfolding tenths
tenths-NoQuote n =
    All-append (λ c. (c == quote) ≡ false) (decimal (n / 10)) (b'.' ∷ (48 + n % 10) ∷ [])
      (decimal-NoQuote (n / 10)) (refl, (digit-plain n, tt))

degrees_of-NoQuote : (n : ℕ) → NoQuote (degrees_of n)
degrees_of-NoQuote n =
    let millionths = (n * 10 + 3) / 6 in
    let fraction = padded 6 (millionths % 1000000) in
    All-append (λ c. (c == quote) ≡ false) (decimal (millionths / 1000000)) (b'.' ∷ fraction)
      (decimal-NoQuote (millionths / 1000000)) (refl, padded-NoQuote 6 (millionths % 1000000))

degrees-NoQuote : (o : Option ℤ) → NoQuote (degrees_or_na o)
unfolding degrees
degrees-NoQuote none = NoQuote-literal (codes "N/A") refl
degrees-NoQuote (some (pos n)) = degrees_of-NoQuote n
degrees-NoQuote (some (negsuc n)) = (refl, degrees_of-NoQuote (n + 1))

heading-NoQuote : (o : Option ℕ) → NoQuote (decimal_or_minus_one o)
unfolding decimal_or_minus_one
heading-NoQuote none = NoQuote-literal (codes "-1") refl
heading-NoQuote (some n) = decimal-NoQuote n

report-IsPlain : (r : PositionReport) → IsPlain (report_emission r).kv
unfolding position_message
report-IsPlain r = (
  (NoQuote-literal (codes "signal_type") refl, NoQuote-literal (codes "AIS_POS") refl),
  (
    (NoQuote-literal (codes "msg_type") refl, decimal-NoQuote r.msg_type),
    (
      (NoQuote-literal (codes "mmsi") refl, decimal-NoQuote r.mmsi),
      (
        (NoQuote-literal (codes "lat") refl, degrees-NoQuote r.lat),
        (
          (NoQuote-literal (codes "lon") refl, degrees-NoQuote r.lon),
          (
            (NoQuote-literal (codes "sog") refl, tenths-NoQuote r.sog),
            (
              (NoQuote-literal (codes "cog") refl, tenths-NoQuote r.cog),
              (
                (NoQuote-literal (codes "hdg") refl, heading-NoQuote r.true_heading),
                (
                  (NoQuote-literal (codes "nav_status") refl, heading-NoQuote (some r.nav_status)),
                  ((NoQuote-literal (codes "pos_acc") refl, decimal-NoQuote r.accuracy), tt),
                ),
              ),
            ),
          ),
        ),
      ),
    ),
  ),
)

-- The fields that the plugin host reads from the text of a position report are those that the report
-- was emitted with.
pub read_fields-report :
    (r : PositionReport)
    → read_fields (some (kv_json (report_emission r).kv)) ≡ some (report_emission r).kv
unfolding position_message stored put_field insert
read_fields-report r = read_fields-stored (report_emission r).kv (report-IsPlain r)
