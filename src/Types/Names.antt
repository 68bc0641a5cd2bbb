-- ===== src/Types/Names.antt =====
-- `ToString`, `SignalTypeFromString` and `ModulationFromString` of backend/src/types.cpp.
use multi_radio.Common.{ℕ, ◌-◌, ◌≡◌, refl, ◌&&◌, ◌||◌, map, leb, if◌then◌else◌, Bytes, codes, same}
use multi_radio.Types.Data.{
  RadioMode, fixed, scan_range, scan_list, air_marine_plot, SignalType, unknown, ais, adsb, dsc,
  Modulation, nfm, wfm, am, fsk, gmsk, ppm, adsb_mod, ais_dual, vdes_asm,
}

-- `std::toupper` in the "C" locale.
unfoldable pub to_upper : ℕ → ℕ
to_upper c = if leb b'a' c && leb c b'z' then c - 32 else c

unfoldable pub upper : Bytes → Bytes
upper s = map to_upper s

unfoldable pub mode_to_string : RadioMode → Bytes
mode_to_string fixed = codes "FIXED"
mode_to_string scan_range = codes "SCAN_RANGE"
mode_to_string scan_list = codes "SCAN_LIST"
mode_to_string air_marine_plot = codes "AIR_MARINE_PLOT"

unfoldable pub signal_type_to_string : SignalType → Bytes
signal_type_to_string ais = codes "AIS"
signal_type_to_string adsb = codes "ADSB"
signal_type_to_string dsc = codes "DSC"
signal_type_to_string unknown = codes "UNKNOWN"

unfoldable pub signal_type_from_string : Bytes → SignalType
signal_type_from_string value =
    let up = upper value in
    if same up (codes "AIS")
    then ais
    else if same up (codes "ADSB") || same up (codes "ADS-B")
    then adsb
    else if same up (codes "DSC")
    then dsc
    else unknown

unfoldable pub modulation_to_string : Modulation → Bytes
modulation_to_string am = codes "AM"
modulation_to_string wfm = codes "WFM"
modulation_to_string fsk = codes "FSK"
modulation_to_string gmsk = codes "GMSK"
modulation_to_string ppm = codes "PPM"
modulation_to_string adsb_mod = codes "ADSB"
modulation_to_string ais_dual = codes "AIS_DUAL"
modulation_to_string vdes_asm = codes "VDES_ASM"
modulation_to_string nfm = codes "NFM"

unfoldable pub modulation_from_string : Bytes → Modulation
modulation_from_string value =
    let up = upper value in
    if same up (codes "AM")
    then am
    else if same up (codes "WFM")
    then wfm
    else if same up (codes "FSK")
    then fsk
    else if same up (codes "GMSK")
    then gmsk
    else if same up (codes "PPM")
    then ppm
    else if same up (codes "ADSB")
    then adsb_mod
    else if same up (codes "AIS_DUAL") || (same up (codes "AIS DUAL") || same up (codes "AISDUAL"))
    then ais_dual
    else if same up (codes "VDES_ASM") || (same up (codes "VDES ASM") || same up (codes "VDESASM"))
    then vdes_asm
    else nfm

modulation_roundtrip : (m : Modulation) → modulation_from_string (modulation_to_string m) ≡ m
unfolding modulation_from_string modulation_to_string upper to_upper
modulation_roundtrip nfm = refl
modulation_roundtrip _ = refl

signal_type_roundtrip : (t : SignalType) → signal_type_from_string (signal_type_to_string t) ≡ t
unfolding signal_type_from_string signal_type_to_string upper to_upper
signal_type_roundtrip unknown = refl
signal_type_roundtrip _ = refl

-- The name of a modulation and of a signal type, in any mixture of upper and lower case, reads back
-- as what it names.
pub names_roundtrip :
    (s : Bytes)
    → ((m : Modulation) → upper s ≡ upper (modulation_to_string m) → modulation_from_string s ≡ m)
      × ((t : SignalType)
          → upper s ≡ upper (signal_type_to_string t)
          → signal_type_from_string s ≡ t)
unfolding modulation_from_string signal_type_from_string
names_roundtrip s = (λ m e. rw e (modulation_roundtrip m), λ t e. rw e (signal_type_roundtrip t))
