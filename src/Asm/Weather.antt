-- ===== src/Asm/Weather.antt =====
-- The weather messages of plugins/asm_decoder.c.
use multi_radio.Common.{ℕ, ◌+◌, List, [], ◌∷◌, leb, ◌==◌, if◌then◌else◌, Bytes, codes}
use multi_radio.Ais.Bits.{ℤ}
use multi_radio.Ais.Format.{padded, decimal, tenths, degrees}
use multi_radio.Ais.Messages.{Emitted, concat, degree_sign}
use multi_radio.Asm.Format.{
  ais_u, ais_s, per_mille, signed_decimal, signed_tenths, is_value, or_na, ice_name, name_at,
  asm_emission,
}

abbrev pub precip_name : ℕ → Bytes
precip_name t =
    if leb t 5
    then name_at
        (codes "Rain"
          ∷ codes "Thunderstorm"
          ∷ codes "Freezing rain"
          ∷ codes "Mixed/ice"
          ∷ codes "Snow"
          ∷ codes "None"
          ∷ [])
        t
    else codes "N/A"

unfoldable pub decode_fi11_21 : List ℕ → ℕ → ℕ → ℕ → ℕ → Emitted
decode_fi11_21 d app_off mmsi fi msg_type =
    let src = if fi == 21 then codes "ship" else codes "shore" in
    let ws =
      or_na (ais_u d app_off 7 == 127) (concat (decimal (ais_u d app_off 7) ∷ codes " kn" ∷ [])) in
    let wg =
      or_na (ais_u d (app_off + 7) 7 == 127)
        (concat (decimal (ais_u d (app_off + 7) 7) ∷ codes " kn" ∷ [])) in
    let wd =
      or_na (ais_u d (app_off + 14) 9 == 360)
        (concat (decimal (ais_u d (app_off + 14) 9) ∷ degree_sign ∷ [])) in
    let at =
      or_na (is_value 601 (ais_s d (app_off + 32) 11))
        (concat (signed_tenths (ais_s d (app_off + 32) 11) ∷ degree_sign ∷ codes "C" ∷ [])) in
    let rh =
      or_na (ais_u d (app_off + 43) 7 == 101)
        (concat (decimal (ais_u d (app_off + 43) 7) ∷ codes "%" ∷ [])) in
    let dp =
      or_na (is_value 501 (ais_s d (app_off + 50) 10))
        (concat (signed_tenths (ais_s d (app_off + 50) 10) ∷ degree_sign ∷ codes "C" ∷ [])) in
    let pr =
      or_na (ais_u d (app_off + 60) 9 == 511)
        (concat (decimal (ais_u d (app_off + 60) 9 + 800) ∷ codes " hPa" ∷ [])) in
    let vi =
      or_na (ais_u d (app_off + 73) 8 == 255)
        (concat (tenths (ais_u d (app_off + 73) 8) ∷ codes " nm" ∷ [])) in
    let sl =
      or_na (ais_u d (app_off + 84) 9 == 511)
        (concat (tenths (ais_u d (app_off + 84) 9) ∷ per_mille ∷ [])) in
    let prec = precip_name (ais_u d (app_off + 81) 3) in
    asm_emission (codes "AIS_ASM_METHYDRO") msg_type mmsi
      ((codes "fi", decimal fi)
        ∷ (codes "mmsi", decimal mmsi)
        ∷ (codes "source", src)
        ∷ (codes "wind_speed_kn", ws)
        ∷ (codes "wind_dir_deg", wd)
        ∷ (codes "wind_gust_kn", wg)
        ∷ (codes "air_temp_c", at)
        ∷ (codes "rel_humidity_pct", rh)
        ∷ (codes "dew_point_c", dp)
        ∷ (codes "pressure_hpa", pr)
        ∷ (codes "pressure_trend_hpa3h", signed_decimal (ais_s d (app_off + 69) 4))
        ∷ (codes "visibility_nm", vi)
        ∷ (codes "precipitation", prec)
        ∷ (codes "salinity_ppt", sl)
        ∷ (codes "ice", ice_name (ais_u d (app_off + 93) 2))
        ∷ [])
      (concat (
        codes "Met/Hydro("
        ∷ src
        ∷ codes ") MMSI:"
        ∷ decimal mmsi
        ∷ codes " Wind:"
        ∷ ws
        ∷ codes "@"
        ∷ wd
        ∷ codes " Gust:"
        ∷ wg
        ∷ codes " Temp:"
        ∷ at
        ∷ codes " RH:"
        ∷ rh
        ∷ codes " Pres:"
        ∷ pr
        ∷ codes " Vis:"
        ∷ vi
        ∷ codes " Prec:"
        ∷ prec
        ∷ []))

-- The texts that `decode_fi31` prints without having written them.
pub record Unwritten : Type 0 where
  pub ws : Bytes
  pub wd : Bytes
  pub at : Bytes
  pub rh : Bytes
  pub dp : Bytes
  pub pr : Bytes
  pub vi : Bytes
  pub sw : Bytes

-- `print5` is "%.5f" of a number divided by 600000.0.
unfoldable pub decode_fi31 : (ℤ → Bytes) → Unwritten → List ℕ → ℕ → ℕ → ℕ → Emitted
decode_fi31 print5 t d app_off mmsi msg_type =
    let lon = ais_s d app_off 25 in
    let lat = ais_s d (app_off + 25) 24 in
    let day = ais_u d (app_off + 50) 5 in
    let hour = ais_u d (app_off + 55) 5 in
    let minute = ais_u d (app_off + 60) 6 in
    let wgsts =
      or_na (ais_u d (app_off + 73) 7 == 127)
        (concat (decimal (ais_u d (app_off + 73) 7) ∷ codes "kn" ∷ [])) in
    let wgdrs =
      or_na (ais_u d (app_off + 89) 9 == 360)
        (concat (decimal (ais_u d (app_off + 89) 9) ∷ degree_sign ∷ [])) in
    let stmps =
      or_na (is_value 601 (ais_s d (app_off + 179) 10))
        (concat (signed_tenths (ais_s d (app_off + 179) 10) ∷ degree_sign ∷ codes "C" ∷ [])) in
    let sals =
      or_na (ais_u d (app_off + 192) 9 == 511)
        (concat (tenths (ais_u d (app_off + 192) 9) ∷ per_mille ∷ [])) in
    let prec = precip_name (ais_u d (app_off + 189) 3) in
    asm_emission (codes "AIS_ASM_METHYDRO_LONG") msg_type mmsi
      ((codes "mmsi", decimal mmsi)
        ∷ (codes "lat", degrees lat)
        ∷ (codes "lon", degrees lon)
        ∷ (
          codes "utc",
          concat (
              codes "D"
              ∷ padded 2 day
              ∷ codes " "
              ∷ padded 2 hour
              ∷ codes ":"
              ∷ padded 2 minute
              ∷ []),
        )
        ∷ (codes "wind_speed_kn", t.ws)
        ∷ (codes "wind_dir_deg", t.wd)
        ∷ (codes "wind_gust_kn", wgsts)
        ∷ (codes "gust_dir_deg", wgdrs)
        ∷ (codes "air_temp_c", t.at)
        ∷ (codes "rel_humidity_pct", t.rh)
        ∷ (codes "dew_point_c", t.dp)
        ∷ (codes "pressure_hpa", t.pr)
        ∷ (codes "pressure_trend", signed_decimal (ais_s d (app_off + 135) 4))
        ∷ (codes "visibility_nm", t.vi)
        ∷ (codes "swell_height_m", t.sw)
        ∷ (codes "swell_period_s", decimal (ais_u d (app_off + 164) 6))
        ∷ (codes "sea_temp_c", stmps)
        ∷ (codes "precipitation", prec)
        ∷ (codes "salinity_ppt", sals)
        ∷ (codes "ice", ice_name (ais_u d (app_off + 201) 2))
        ∷ [])
      (concat (
        codes "Met/Hydro(long) MMSI:"
        ∷ decimal mmsi
        ∷ codes " Pos:"
        ∷ print5 lat
        ∷ codes ","
        ∷ print5 lon
        ∷ codes " D"
        ∷ padded 2 day
        ∷ codes " "
        ∷ padded 2 hour
        ∷ codes ":"
        ∷ padded 2 minute
        ∷ codes " Wind:"
        ∷ t.ws
        ∷ codes "@"
        ∷ t.wd
        ∷ codes " Gust:"
        ∷ wgsts
        ∷ codes " Temp:"
        ∷ t.at
        ∷ codes " RH:"
        ∷ t.rh
        ∷ codes " Pres:"
        ∷ t.pr
        ∷ codes " Vis:"
        ∷ t.vi
        ∷ codes " Swell:"
        ∷ t.sw
        ∷ codes " Prec:"
        ∷ prec
        ∷ []))
