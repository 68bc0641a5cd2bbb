-- ===== src/Ais/Messages.antt =====
-- The messages of plugins/ais_decoder.c, first positions: the fields of each type, as the list of the keys and values
-- of its JSON text, and the text that is shown. Both are shorter than their buffers.
use multi_radio.Common.{
  ℕ, Bool, true, false, ◌||◌, Option, none, some, List, [], ◌∷◌, ◌++◌, leb, ◌==◌, if◌then◌else◌,
  Bytes, codes,
}
use multi_radio.Names.Json.{quote}
use multi_radio.Ais.Bits.{ℤ, pos, negsuc, ais_bits, ais_signed}
use multi_radio.Ais.Format.{decimal, tenths, degrees, decimal_or_minus_one}

pub record Emitted : Type 0 where
  pub signal_type : Bytes
  pub payload : Bytes
  pub kv : List (Bytes × Bytes)

unfoldable pub concat : List Bytes → Bytes
concat [] = []
concat (s ∷ ss) = s ++ concat ss

abbrev pub degree_sign : Bytes
degree_sign = 0xc2 ∷ 0xb0 ∷ []

-- The sentinels are 181 * 600000 and 91 * 600000.
abbrev pub is_na : ℕ → ℤ → Bool
is_na sentinel (pos n) = n == sentinel
is_na sentinel (negsuc n) = false

abbrev pub lon_na : ℤ → Bool
lon_na raw = is_na 108600000 raw

abbrev pub lat_na : ℤ → Bool
lat_na raw = is_na 54600000 raw

abbrev pub slon : ℤ → Bytes
slon raw = if lon_na raw then codes "N/A" else degrees raw

abbrev pub slat : ℤ → Bytes
slat raw = if lat_na raw then codes "N/A" else degrees raw

abbrev pub mmsi_of : List ℕ → Bytes
mmsi_of d = decimal (ais_bits d 8 30)

-- `hdg == 511 ? -1 : hdg`.
abbrev pub heading : ℕ → Bytes
heading hdg = decimal_or_minus_one (if hdg == 511 then none else some hdg)

-- Where the fields of a position stand, for class A and for class B.
abbrev pub is_a : ℕ → Bool
is_a msg_type = leb msg_type 3

-- The texts of a position: whether it is shown, and what was printed of it.
unfoldable pub position_message :
    ℕ → Bytes → Option ℕ → Bool → Bytes → Bytes → ℕ → ℕ → Bytes → ℕ → Emitted
position_message msg_type mmsi nav na lat lon sog cog hdg acc = record {
  signal_type = codes "AIS_POS";
  payload =
      if na
      then concat (
          codes "MMSI:"
          ∷ mmsi
          ∷ codes " SOG:"
          ∷ tenths sog
          ∷ codes "kn COG:"
          ∷ tenths cog
          ∷ degree_sign
          ∷ codes " Pos:N/A"
          ∷ [])
      else concat (
          codes "MMSI:"
          ∷ mmsi
          ∷ codes " Lat:"
          ∷ lat
          ∷ codes " Lon:"
          ∷ lon
          ∷ codes " SOG:"
          ∷ tenths sog
          ∷ codes "kn COG:"
          ∷ tenths cog
          ∷ degree_sign
          ∷ []);
  kv =
      (codes "signal_type", codes "AIS_POS")
      ∷ (codes "msg_type", decimal msg_type)
      ∷ (codes "mmsi", mmsi)
      ∷ (codes "lat", lat)
      ∷ (codes "lon", lon)
      ∷ (codes "sog", tenths sog)
      ∷ (codes "cog", tenths cog)
      ∷ (codes "hdg", hdg)
      ∷ (codes "nav_status", decimal_or_minus_one nav)
      ∷ (codes "pos_acc", decimal acc)
      ∷ [];
}

unfoldable pub decode_position : List ℕ → ℕ → Emitted
decode_position d msg_type =
    let raw_lon = ais_signed d (if is_a msg_type then 61 else 57) 28 in
    let raw_lat = ais_signed d (if is_a msg_type then 89 else 85) 27 in
    position_message msg_type (mmsi_of d) (if is_a msg_type then some (ais_bits d 38 4) else none)
      (lat_na raw_lat || lon_na raw_lon) (slat raw_lat) (slon raw_lon)
      (ais_bits d (if is_a msg_type then 50 else 46) 10)
      (ais_bits d (if is_a msg_type then 116 else 112) 12)
      (heading (ais_bits d (if is_a msg_type then 128 else 124) 9))
      (ais_bits d (if is_a msg_type then 60 else 56) 1)

-- `"key":"value"`.
unfoldable pub kv_entry : Bytes → Bytes → Bytes
kv_entry k v = quote ∷ (k ++ (quote ∷ b':' ∷ quote ∷ (v ++ (quote ∷ []))))

unfoldable pub kv_entries : Bool → List (Bytes × Bytes) → Bytes
kv_entries first [] = []
kv_entries first ((k, v) ∷ kv) =
    (if first then [] else b',' ∷ []) ++ (kv_entry k v ++ kv_entries false kv)

-- The JSON text of the keys and values: the formats put the values between quotes as they are.
unfoldable pub kv_json : List (Bytes × Bytes) → Bytes
kv_json kv = b'{' ∷ (kv_entries true kv ++ (b'}' ∷ []))
