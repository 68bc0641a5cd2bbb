-- ===== src/Asm/Format.antt =====
-- The fields and the texts of plugins/asm_decoder.c. `ais_u`, `ais_s` and `ais_str` are the text of
-- plugins/ais_decoder.c with other names.
use multi_radio.Common.{
  ℕ, ◌+◌, ◌/◌, min, Bool, false, List, [], ◌∷◌, ◌==◌, if◌then◌else◌, get_or, take, drop, Bytes,
  codes,
}
use multi_radio.Ais.Bits.{ais_bits, ℤ, pos, negsuc, ais_signed, ais_text}
use multi_radio.Ais.Format.{decimal, tenths}
use multi_radio.Ais.Messages.{Emitted}
use multi_radio.Ais.Nrzi.{hex_of}

abbrev pub ais_u : List ℕ → ℕ → ℕ → ℕ
ais_u d start len = ais_bits d start len

abbrev pub ais_s : List ℕ → ℕ → ℕ → ℤ
ais_s d start len = ais_signed d start len

abbrev pub ais_str : List ℕ → ℕ → ℕ → Bytes
ais_str d start n = ais_text d start n

abbrev pub per_mille : Bytes
per_mille = 0xe2 ∷ 0x80 ∷ 0xb0 ∷ []

-- "%lld".
unfoldable pub signed_decimal : ℤ → Bytes
signed_decimal (pos n) = decimal n
signed_decimal (negsuc n) = b'-' ∷ decimal (n + 1)

-- "%.1f" of `n / 10.0`.
unfoldable pub signed_tenths : ℤ → Bytes
signed_tenths (pos n) = tenths n
signed_tenths (negsuc n) = b'-' ∷ tenths (n + 1)

abbrev pub is_value : ℕ → ℤ → Bool
is_value sentinel (pos n) = n == sentinel
is_value sentinel (negsuc n) = false

-- A number of a sentinel that is not available, or its text.
abbrev pub or_na : Bool → Bytes → Bytes
or_na na s = if na then codes "N/A" else s

abbrev pub ice_name : ℕ → Bytes
ice_name ice = if ice == 3 then codes "N/A" else if ice == 1 then codes "Yes" else codes "No"

-- The name at an index of a list of names.
abbrev pub name_at : List Bytes → ℕ → Bytes
name_at names i = get_or names i (codes "Unknown")

-- A `switch` over numbers that returns names.
unfoldable pub name_in : List (ℕ × Bytes) → ℕ → Bytes
name_in [] t = codes "Unknown"
name_in ((n, name) ∷ table) t = let rest = name_in table t in if t == n then name else rest

-- `hex_encode` of the bytes from an offset on, 60 at most, into 128 bytes.
unfoldable pub hex_encode : List ℕ → ℕ → Bytes
hex_encode buf offset = hex_of (take 60 (drop offset buf))

-- The characters of a text that is left from a bit on, 63 at most.
abbrev pub chars_left : ℕ → ℕ
chars_left bits = min 63 (bits / 6)

-- What the messages of DAC 1 begin with.
unfoldable pub asm_emission : Bytes → ℕ → ℕ → List (Bytes × Bytes) → Bytes → Emitted
asm_emission type msg_type mmsi fields payload = record {
  signal_type = type;
  payload = payload;
  kv =
      (codes "signal_type", type)
      ∷ (codes "msg_type", decimal msg_type)
      ∷ (codes "sender_mmsi", decimal mmsi)
      ∷ fields;
}
