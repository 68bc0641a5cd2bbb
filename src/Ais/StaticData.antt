-- ===== src/Ais/StaticData.antt =====
-- The messages of plugins/ais_decoder.c with the names and the voyage of a ship.
use multi_radio.Common.{ℕ, List, [], ◌∷◌, ◌==◌, if◌then◌else◌, codes}
use multi_radio.Ais.Bits.{ais_bits, ais_text}
use multi_radio.Ais.Format.{decimal, tenths}
use multi_radio.Ais.Messages.{Emitted, concat, mmsi_of}

unfoldable pub decode_voyage : List ℕ → Emitted
decode_voyage d =
    let mmsi = mmsi_of d in
    let name = ais_text d 112 20 in
    let callsign = ais_text d 70 7 in
    let dest = ais_text d 302 20 in
    let draught = tenths (ais_bits d 294 8) in
    let ship_type = decimal (ais_bits d 232 8) in
    record {
      signal_type = codes "AIS_STAT";
      payload = concat (
          codes "MMSI:"
          ∷ mmsi
          ∷ codes " Name:"
          ∷ name
          ∷ codes " CS:"
          ∷ callsign
          ∷ codes " Dest:"
          ∷ dest
          ∷ []);
      kv =
          (codes "signal_type", codes "AIS_STAT")
          ∷ (codes "msg_type", codes "5")
          ∷ (codes "mmsi", mmsi)
          ∷ (codes "name", name)
          ∷ (codes "callsign", callsign)
          ∷ (codes "dest", dest)
          ∷ (codes "draught", draught)
          ∷ (codes "ship_type", ship_type)
          ∷ [];
    }

unfoldable pub static24_part_a : List ℕ → Emitted
static24_part_a d =
    let mmsi = mmsi_of d in
    let name = ais_text d 40 20 in
    record {
      signal_type = codes "AIS_STAT24";
      payload = concat (codes "MMSI:" ∷ mmsi ∷ codes " Name:" ∷ name ∷ []);
      kv =
          (codes "signal_type", codes "AIS_STAT24")
          ∷ (codes "msg_type", codes "24")
          ∷ (codes "part", codes "A")
          ∷ (codes "mmsi", mmsi)
          ∷ (codes "name", name)
          ∷ [];
    }

unfoldable pub static24_part_b : List ℕ → Emitted
static24_part_b d =
    let mmsi = mmsi_of d in
    let ship_type = decimal (ais_bits d 40 8) in
    let vendor = ais_text d 48 7 in
    let callsign = ais_text d 90 7 in
    record {
      signal_type = codes "AIS_STAT24";
      payload =
          concat (codes "MMSI:" ∷ mmsi ∷ codes " CS:" ∷ callsign ∷ codes " Type:" ∷ ship_type ∷ []);
      kv =
          (codes "signal_type", codes "AIS_STAT24")
          ∷ (codes "msg_type", codes "24")
          ∷ (codes "part", codes "B")
          ∷ (codes "mmsi", mmsi)
          ∷ (codes "callsign", callsign)
          ∷ (codes "ship_type", ship_type)
          ∷ (codes "vendor", vendor)
          ∷ [];
    }

unfoldable pub decode_static24 : List ℕ → Emitted
decode_static24 d = if ais_bits d 38 2 == 0 then static24_part_a d else static24_part_b d
