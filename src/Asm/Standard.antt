-- ===== src/Asm/Standard.antt =====
-- The standard messages that plugins/asm_decoder.c decodes beside plugins/ais_decoder.c.
use multi_radio.Common.{ℕ, List, [], ◌∷◌, ◌==◌, if◌then◌else◌, codes}
use multi_radio.Ais.Format.{padded, decimal, tenths}
use multi_radio.Ais.Messages.{Emitted, concat, degree_sign, slat, slon, heading, is_a, mmsi_of}
use multi_radio.Ais.OtherReports.{padded_year}
use multi_radio.Asm.Format.{ais_u, ais_s, ais_str}

unfoldable pub decode_position : List ℕ → ℕ → Emitted
decode_position d mt =
    let mmsi = mmsi_of d in
    let lon = slon (ais_s d (if is_a mt then 61 else 57) 28) in
    let lat = slat (ais_s d (if is_a mt then 89 else 85) 27) in
    let sog = tenths (ais_u d (if is_a mt then 50 else 46) 10) in
    let cog = tenths (ais_u d (if is_a mt then 116 else 112) 12) in
    record {
      signal_type = codes "AIS_POS";
      payload = concat (
          codes "MMSI:"
          ∷ mmsi
          ∷ codes " Lat:"
          ∷ lat
          ∷ codes " Lon:"
          ∷ lon
          ∷ codes " SOG:"
          ∷ sog
          ∷ codes "kn COG:"
          ∷ cog
          ∷ degree_sign
          ∷ []);
      kv =
          (codes "signal_type", codes "AIS_POS")
          ∷ (codes "msg_type", decimal mt)
          ∷ (codes "mmsi", mmsi)
          ∷ (codes "lat", lat)
          ∷ (codes "lon", lon)
          ∷ (codes "sog", sog)
          ∷ (codes "cog", cog)
          ∷ (codes "hdg", heading (ais_u d (if is_a mt then 128 else 124) 9))
          ∷ [];
    }

unfoldable pub decode_base_station : List ℕ → Emitted
decode_base_station d =
    let mmsi = mmsi_of d in
    let day = concat (
      padded_year (ais_u d 38 14)
      ∷ codes "-"
      ∷ padded 2 (ais_u d 52 4)
      ∷ codes "-"
      ∷ padded 2 (ais_u d 56 5)
      ∷ codes "T"
      ∷ padded 2 (ais_u d 61 5)
      ∷ codes ":"
      ∷ padded 2 (ais_u d 66 6)
      ∷ []) in
    let lon = slon (ais_s d 79 28) in
    let lat = slat (ais_s d 107 27) in
    record {
      signal_type = codes "AIS_BSR";
      payload = concat (
          codes "MMSI:" ∷ mmsi ∷ codes " " ∷ day ∷ codes "Z Lat:" ∷ lat ∷ codes " Lon:" ∷ lon ∷ []);
      kv =
          (codes "signal_type", codes "AIS_BSR")
          ∷ (codes "msg_type", codes "4")
          ∷ (codes "mmsi", mmsi)
          ∷ (codes "utc", concat (day ∷ codes ":00Z" ∷ []))
          ∷ (codes "lat", lat)
          ∷ (codes "lon", lon)
          ∷ [];
    }

unfoldable pub decode_voyage : List ℕ → Emitted
decode_voyage d =
    let mmsi = mmsi_of d in
    let name = ais_str d 112 20 in
    let callsign = ais_str d 70 7 in
    let dest = ais_str d 302 20 in
    record {
      signal_type = codes "AIS_STAT";
      payload = concat (
          codes "MMSI:"
          ∷ mmsi
          ∷ codes " Name:"
          ∷ name
          ∷ codes " CS:"
          ∷ callsign
          ∷ codes " Dest:"
          ∷ dest
          ∷ []);
      kv =
          (codes "signal_type", codes "AIS_STAT")
          ∷ (codes "msg_type", codes "5")
          ∷ (codes "mmsi", mmsi)
          ∷ (codes "name", name)
          ∷ (codes "callsign", callsign)
          ∷ (codes "dest", dest)
          ∷ [];
    }

unfoldable pub decode_aton : List ℕ → Emitted
decode_aton d =
    let mmsi = mmsi_of d in
    let aton_type = decimal (ais_u d 38 5) in
    let name = ais_str d 43 20 in
    let lon = slon (ais_s d 164 28) in
    let lat = slat (ais_s d 192 27) in
    record {
      signal_type = codes "AIS_ATON";
      payload = concat (
          codes "MMSI:"
          ∷ mmsi
          ∷ codes " AtoN:"
          ∷ aton_type
          ∷ codes " "
          ∷ name
          ∷ codes " Lat:"
          ∷ lat
          ∷ codes " Lon:"
          ∷ lon
          ∷ []);
      kv =
          (codes "signal_type", codes "AIS_ATON")
          ∷ (codes "msg_type", codes "21")
          ∷ (codes "mmsi", mmsi)
          ∷ (codes "name", name)
          ∷ (codes "type", aton_type)
          ∷ (codes "lat", lat)
          ∷ (codes "lon", lon)
          ∷ [];
    }

unfoldable pub static24_part_a : List ℕ → Emitted
static24_part_a d =
    let mmsi = mmsi_of d in
    let name = ais_str d 40 20 in
    record {
      signal_type = codes "AIS_STAT24";
      payload = concat (codes "MMSI:" ∷ mmsi ∷ codes " Name:" ∷ name ∷ []);
      kv =
          (codes "signal_type", codes "AIS_STAT24")
          ∷ (codes "msg_type", codes "24")
          ∷ (codes "part", codes "A")
          ∷ (codes "mmsi", mmsi)
          ∷ (codes "name", name)
          ∷ [];
    }

unfoldable pub static24_part_b : List ℕ → Emitted
static24_part_b d =
    let mmsi = mmsi_of d in
    let vendor = ais_str d 48 7 in
    let cs = ais_str d 90 7 in
    let stype = decimal (ais_u d 40 8) in
    record {
      signal_type = codes "AIS_STAT24";
      payload = concat (codes "MMSI:" ∷ mmsi ∷ codes " CS:" ∷ cs ∷ codes " Type:" ∷ stype ∷ []);
      kv =
          (codes "signal_type", codes "AIS_STAT24")
          ∷ (codes "msg_type", codes "24")
          ∷ (codes "part", codes "B")
          ∷ (codes "mmsi", mmsi)
          ∷ (codes "callsign", cs)
          ∷ (codes "ship_type", stype)
          ∷ (codes "vendor", vendor)
          ∷ [];
    }

unfoldable pub decode_static24 : List ℕ → Emitted
decode_static24 d = if ais_u d 38 2 == 0 then static24_part_a d else static24_part_b d
