-- ===== src/Ais/OtherReports.antt =====
-- The reports of aircraft, base stations, aids to navigation and class B of plugins/ais_decoder.c.
use multi_radio.Common.{ℕ, ◌||◌, List, [], ◌∷◌, ltb, ◌==◌, if◌then◌else◌, Bytes, codes}
use multi_radio.Ais.Bits.{ais_bits, ais_signed, ais_text}
use multi_radio.Ais.Format.{padded, decimal, tenths, feet}
use multi_radio.Ais.Messages.{
  Emitted, concat, degree_sign, lon_na, lat_na, slon, slat, mmsi_of, heading,
}

unfoldable pub decode_sar_position : List ℕ → Emitted
decode_sar_position d =
    let mmsi = mmsi_of d in
    let alt_m = ais_bits d 38 12 in
    let sog = tenths (ais_bits d 50 10) in
    let raw_lon = ais_signed d 61 28 in
    let raw_lat = ais_signed d 89 27 in
    let cog = tenths (ais_bits d 116 12) in
    let alt_ft = feet (if alt_m == 4095 then 0 else alt_m) in
    record {
      signal_type = codes "AIR-SAR";
      payload =
          if lat_na raw_lat || lon_na raw_lon
          then concat (
              codes "MMSI:"
              ∷ mmsi
              ∷ codes " Alt:"
              ∷ alt_ft
              ∷ codes "ft SOG:"
              ∷ sog
              ∷ codes "kn Pos:N/A"
              ∷ [])
          else concat (
              codes "MMSI:"
              ∷ mmsi
              ∷ codes " Lat:"
              ∷ slat raw_lat
              ∷ codes " Lon:"
              ∷ slon raw_lon
              ∷ codes " Alt:"
              ∷ alt_ft
              ∷ codes "ft SOG:"
              ∷ sog
              ∷ codes "kn COG:"
              ∷ cog
              ∷ degree_sign
              ∷ []);
      kv =
          (codes "signal_type", codes "AIR-SAR")
          ∷ (codes "msg_type", codes "9")
          ∷ (codes "mmsi", mmsi)
          ∷ (codes "lat", slat raw_lat)
          ∷ (codes "lon", slon raw_lon)
          ∷ (codes "sog", sog)
          ∷ (codes "cog", cog)
          ∷ (codes "alt_baro", alt_ft)
          ∷ [];
    }

-- "%04d" of a number of at most five digits.
abbrev pub padded_year : ℕ → Bytes
padded_year n = padded (if ltb n 10000 then 4 else 5) n

unfoldable pub decode_base_station : List ℕ → Emitted
decode_base_station d =
    let mmsi = mmsi_of d in
    let utc = concat (
      padded_year (ais_bits d 38 14)
      ∷ codes "-"
      ∷ padded 2 (ais_bits d 52 4)
      ∷ codes "-"
      ∷ padded 2 (ais_bits d 56 5)
      ∷ codes "T"
      ∷ padded 2 (ais_bits d 61 5)
      ∷ codes ":"
      ∷ padded 2 (ais_bits d 66 6)
      ∷ codes ":"
      ∷ padded 2 (ais_bits d 72 6)
      ∷ codes "Z"
      ∷ []) in
    let raw_lon = ais_signed d 79 28 in
    let raw_lat = ais_signed d 107 27 in
    record {
      signal_type = codes "AIS_BSR";
      payload = concat (
          codes "MMSI:"
          ∷ mmsi
          ∷ codes " "
          ∷ utc
          ∷ codes " Lat:"
          ∷ slat raw_lat
          ∷ codes " Lon:"
          ∷ slon raw_lon
          ∷ []);
      kv =
          (codes "signal_type", codes "AIS_BSR")
          ∷ (codes "msg_type", codes "4")
          ∷ (codes "mmsi", mmsi)
          ∷ (codes "utc", utc)
          ∷ (codes "lat", slat raw_lat)
          ∷ (codes "lon", slon raw_lon)
          ∷ [];
    }

unfoldable pub decode_aton : List ℕ → Emitted
decode_aton d =
    let mmsi = mmsi_of d in
    let type_of_aton = decimal (ais_bits d 38 5) in
    let name = ais_text d 43 20 in
    let raw_lon = ais_signed d 164 28 in
    let raw_lat = ais_signed d 192 27 in
    record {
      signal_type = codes "AIS_ATON";
      payload = concat (
          codes "MMSI:"
          ∷ mmsi
          ∷ codes " Name:"
          ∷ name
          ∷ codes " AtoN:"
          ∷ type_of_aton
          ∷ codes " Lat:"
          ∷ slat raw_lat
          ∷ codes " Lon:"
          ∷ slon raw_lon
          ∷ []);
      kv =
          (codes "signal_type", codes "AIS_ATON")
          ∷ (codes "msg_type", codes "21")
          ∷ (codes "mmsi", mmsi)
          ∷ (codes "name", name)
          ∷ (codes "type_of_aton", type_of_aton)
          ∷ (codes "lat", slat raw_lat)
          ∷ (codes "lon", slon raw_lon)
          ∷ [];
    }

unfoldable pub decode_extended_position : List ℕ → Emitted
decode_extended_position d =
    let mmsi = mmsi_of d in
    let sog = tenths (ais_bits d 42 10) in
    let raw_lon = ais_signed d 53 28 in
    let raw_lat = ais_signed d 81 27 in
    let cog = tenths (ais_bits d 108 12) in
    let hdg = ais_bits d 120 9 in
    let name = ais_text d 143 20 in
    let ship_type = decimal (ais_bits d 263 8) in
    record {
      signal_type = codes "AIS_POS";
      payload =
          if lat_na raw_lat || lon_na raw_lon
          then concat (
              codes "MMSI:"
              ∷ mmsi
              ∷ codes " Name:"
              ∷ name
              ∷ codes " SOG:"
              ∷ sog
              ∷ codes "kn Pos:N/A"
              ∷ [])
          else concat (
              codes "MMSI:"
              ∷ mmsi
              ∷ codes " Name:"
              ∷ name
              ∷ codes " Lat:"
              ∷ slat raw_lat
              ∷ codes " Lon:"
              ∷ slon raw_lon
              ∷ codes " SOG:"
              ∷ sog
              ∷ codes "kn COG:"
              ∷ cog
              ∷ degree_sign
              ∷ []);
      kv =
          (codes "signal_type", codes "AIS_POS")
          ∷ (codes "msg_type", codes "19")
          ∷ (codes "mmsi", mmsi)
          ∷ (codes "lat", slat raw_lat)
          ∷ (codes "lon", slon raw_lon)
          ∷ (codes "sog", sog)
          ∷ (codes "cog", cog)
          ∷ (codes "hdg", heading hdg)
          ∷ (codes "name", name)
          ∷ (codes "ship_type", ship_type)
          ∷ [];
    }
