-- ===== src/Asm/Routes.antt =====
-- The messages of plugins/asm_decoder.c on routes, texts, signals and tides. `print5` is "%.5f" of a
-- number divided by 600000.0.
use multi_radio.Common.{
  ℕ, ◌+◌, ◌-◌, ◌*◌, ◌%◌, not, ◌&&◌, List, [], ◌∷◌, ltb, ◌==◌, if◌then◌else◌, length, Bytes, codes,
}
use multi_radio.Ais.Bits.{ℤ}
use multi_radio.Ais.Format.{padded, decimal, tenths, degrees}
use multi_radio.Ais.Messages.{Emitted, concat, degree_sign}
use multi_radio.Asm.Format.{ais_u, ais_s, ais_str, is_value, name_at, chars_left, asm_emission}

abbrev pub rtypes : List Bytes
rtypes =
    codes "N/A"
    ∷ codes "Mandatory"
    ∷ codes "Recommended"
    ∷ codes "Alternative"
    ∷ codes "Recommended through ice"
    ∷ []

-- The first waypoint, if there is one and neither number is its sentinel.
unfoldable pub first_waypoint : List ℕ → ℕ → ℕ → Bytes
first_waypoint d app_off wp_count =
    let lon = ais_s d (app_off + 59) 28 in
    let lat = ais_s d (app_off + 87) 27 in
    if ltb 0 wp_count && (not (is_value 0x8000000 lon) && not (is_value 0x4000000 lat))
    then concat (degrees lat ∷ codes "," ∷ degrees lon ∷ [])
    else codes "N/A"

unfoldable pub decode_fi27 : List ℕ → ℕ → ℕ → ℕ → Emitted
decode_fi27 d app_off mmsi msg_type =
    let link_id = ais_u d app_off 10 in
    let route = name_at rtypes (ais_u d (app_off + 12) 4) in
    let utc = concat (
      codes "M"
      ∷ padded 2 (ais_u d (app_off + 16) 4)
      ∷ codes " D"
      ∷ padded 2 (ais_u d (app_off + 20) 5)
      ∷ codes " "
      ∷ padded 2 (ais_u d (app_off + 25) 5)
      ∷ codes ":"
      ∷ padded 2 (ais_u d (app_off + 30) 6)
      ∷ []) in
    let duration = ais_u d (app_off + 36) 18 in
    let wp_count = ais_u d (app_off + 54) 5 in
    let wp1 = first_waypoint d app_off wp_count in
    asm_emission (codes "AIS_ASM_ROUTE") msg_type mmsi
      ((codes "mmsi", decimal mmsi)
        ∷ (codes "link_id", decimal link_id)
        ∷ (codes "route_type", route)
        ∷ (codes "utc", utc)
        ∷ (codes "duration_min", decimal duration)
        ∷ (codes "waypoints", decimal wp_count)
        ∷ (codes "first_wp", wp1)
        ∷ [])
      (concat (
        codes "Route MMSI:"
        ∷ decimal mmsi
        ∷ codes " ["
        ∷ decimal link_id
        ∷ codes "] Type:"
        ∷ route
        ∷ codes " WPs:"
        ∷ decimal wp_count
        ∷ codes " First:"
        ∷ wp1
        ∷ codes " UTC:"
        ∷ utc
        ∷ codes " Dur:"
        ∷ decimal duration
        ∷ codes "min"
        ∷ []))

unfoldable pub decode_fi28 : List ℕ → ℕ → ℕ → ℕ → Emitted
decode_fi28 d app_off mmsi msg_type =
    let seq = ais_u d app_off 2 in
    let is_last = ais_u d (app_off + 2) 1 in
    let text = ais_str d (app_off + 6) (chars_left (length d * 8 - (app_off + 6))) in
    asm_emission (codes "AIS_ASM_TEXT") msg_type mmsi
      ((codes "mmsi", decimal mmsi)
        ∷ (codes "seq", decimal seq)
        ∷ (codes "last", decimal is_last)
        ∷ (codes "text", text)
        ∷ [])
      (concat (
        codes "ASM Text MMSI:"
        ∷ decimal mmsi
        ∷ codes " ["
        ∷ decimal seq
        ∷ (if is_last == 0 then codes "+" else codes "/")
        ∷ codes "] \""
        ∷ text
        ∷ codes "\""
        ∷ []))

abbrev pub stat_names : List Bytes
stat_names = codes "N/A" ∷ codes "In Use" ∷ codes "Not in Use" ∷ codes "N/A" ∷ []

unfoldable pub decode_fi29 : (ℤ → Bytes) → List ℕ → ℕ → ℕ → ℕ → Emitted
decode_fi29 print5 d app_off mmsi msg_type =
    let link_id = ais_u d app_off 10 in
    let name = ais_str d (app_off + 10) 14 in
    let lon = ais_s d (app_off + 94) 28 in
    let lat = ais_s d (app_off + 122) 27 in
    let status = name_at stat_names (ais_u d (app_off + 149) 2 % 4) in
    let signal = ais_u d (app_off + 151) 5 in
    let utc = concat (
      padded 2 (ais_u d (app_off + 156) 5)
      ∷ codes ":"
      ∷ padded 2 (ais_u d (app_off + 161) 6)
      ∷ []) in
    asm_emission (codes "AIS_ASM_TRAFFIC_SIGNAL") msg_type mmsi
      ((codes "mmsi", decimal mmsi)
        ∷ (codes "link_id", decimal link_id)
        ∷ (codes "name", name)
        ∷ (codes "lat", degrees lat)
        ∷ (codes "lon", degrees lon)
        ∷ (codes "status", status)
        ∷ (codes "signal", decimal signal)
        ∷ (codes "utc", utc)
        ∷ [])
      (concat (
        codes "Traffic Signal MMSI:"
        ∷ decimal mmsi
        ∷ codes " ["
        ∷ decimal link_id
        ∷ codes "] "
        ∷ name
        ∷ codes " Lat:"
        ∷ print5 lat
        ∷ codes " Lon:"
        ∷ print5 lon
        ∷ codes " Status:"
        ∷ status
        ∷ codes " Signal:"
        ∷ decimal signal
        ∷ codes " "
        ∷ utc
        ∷ []))

unfoldable pub decode_fi32 : (ℤ → Bytes) → List ℕ → ℕ → ℕ → ℕ → Emitted
decode_fi32 print5 d app_off mmsi msg_type =
    let date = concat (
      codes "M"
      ∷ padded 2 (ais_u d app_off 4)
      ∷ codes " D"
      ∷ padded 2 (ais_u d (app_off + 4) 5)
      ∷ []) in
    let lat1 = ais_s d (app_off + 9) 27 in
    let lon1 = ais_s d (app_off + 36) 28 in
    let from = concat (
      padded 2 (ais_u d (app_off + 64) 5) ∷ codes ":" ∷ padded 2 (ais_u d (app_off + 69) 6) ∷ []) in
    let to = concat (
      padded 2 (ais_u d (app_off + 75) 5) ∷ codes ":" ∷ padded 2 (ais_u d (app_off + 80) 6) ∷ []) in
    let cdir = ais_u d (app_off + 86) 9 in
    let cspd = tenths (ais_u d (app_off + 95) 8) in
    asm_emission (codes "AIS_ASM_TIDAL_WINDOW") msg_type mmsi
      ((codes "mmsi", decimal mmsi)
        ∷ (codes "date", date)
        ∷ (codes "lat", degrees lat1)
        ∷ (codes "lon", degrees lon1)
        ∷ (codes "from", from)
        ∷ (codes "to", to)
        ∷ (codes "current_dir_deg", decimal cdir)
        ∷ (codes "current_spd_kn", cspd)
        ∷ [])
      (concat (
        codes "Tidal Window MMSI:"
        ∷ decimal mmsi
        ∷ codes " "
        ∷ date
        ∷ codes " Pos:"
        ∷ print5 lat1
        ∷ codes ","
        ∷ print5 lon1
        ∷ codes " From:"
        ∷ from
        ∷ codes " To:"
        ∷ to
        ∷ codes " Curr:"
        ∷ decimal cdir
        ∷ degree_sign
        ∷ codes "@"
        ∷ cspd
        ∷ codes "kn"
        ∷ []))
