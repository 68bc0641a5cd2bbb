-- ===== src/Ais/Nrzi.antt =====
-- plugins/nrzi_decoder.c: the line code under the frames, and the text in which its bytes go on to
-- the plugin host.
use multi_radio.Common.{
  ℕ, ◌+◌, ◌/◌, ◌%◌, Bool, true, false, not, Option, none, some, List, [], ◌∷◌, ltb, ◌==◌,
  if◌then◌else◌, take, Bytes, codes, same,
}
use multi_radio.Ais.Hdlc.{bits_of}

pub record NrziCtx : Type 0 where
  pub invert : Bool
  pub last_bit : Bool
  pub last_bit_asm : Bool

abbrev pub differs : Bool → Bool → Bool
differs true b = not b
differs false b = b

-- The loop: the bits decoded and the last bit of the line.
unfoldable pub decode_bits : Bool → Bool → List Bool → List Bool × Bool
decode_bits invert last [] = ([], last)
decode_bits invert last (cur ∷ bits) =
    let (decoded, end) = decode_bits invert cur bits in
    (differs invert (differs cur last) ∷ decoded, end)

abbrev pub bit_at : ℕ → Bool → ℕ
bit_at weight true = weight
bit_at weight false = 0

-- The bytes that the loop fills, the first bit highest; the bits that are not set stay 0.
unfoldable pub pack : List Bool → List ℕ
pack (a ∷ b ∷ c ∷ d ∷ e ∷ f ∷ g ∷ h ∷ bits) =
    (bit_at 128 a
      + (bit_at 64 b
          + (bit_at 32 c
              + (bit_at 16 d + (bit_at 8 e + (bit_at 4 f + (bit_at 2 g + bit_at 1 h)))))))
    ∷ pack bits
pack [] = []
pack (a ∷ []) = bit_at 128 a ∷ []
pack (a ∷ b ∷ []) = (bit_at 128 a + bit_at 64 b) ∷ []
pack (a ∷ b ∷ c ∷ []) = (bit_at 128 a + (bit_at 64 b + bit_at 32 c)) ∷ []
pack (a ∷ b ∷ c ∷ d ∷ []) = (bit_at 128 a + (bit_at 64 b + (bit_at 32 c + bit_at 16 d))) ∷ []
pack (a ∷ b ∷ c ∷ d ∷ e ∷ []) =
    (bit_at 128 a + (bit_at 64 b + (bit_at 32 c + (bit_at 16 d + bit_at 8 e)))) ∷ []
pack (a ∷ b ∷ c ∷ d ∷ e ∷ f ∷ []) =
    (bit_at 128 a + (bit_at 64 b + (bit_at 32 c + (bit_at 16 d + (bit_at 8 e + bit_at 4 f))))) ∷ []
pack (a ∷ b ∷ c ∷ d ∷ e ∷ f ∷ g ∷ []) =
    (bit_at 128 a
      + (bit_at 64 b + (bit_at 32 c + (bit_at 16 d + (bit_at 8 e + (bit_at 4 f + bit_at 2 g))))))
    ∷ []

-- `snprintf` with "%02X" of a byte.
abbrev pub hex_digit : ℕ → ℕ
hex_digit n = if ltb n 10 then 48 + n else 55 + n

unfoldable pub hex_of : List ℕ → Bytes
hex_of [] = []
hex_of (b ∷ bs) = hex_digit (b / 16) ∷ hex_digit (b % 16) ∷ hex_of bs

abbrev pub is_asm : Option Bytes → Bool
is_asm none = false
is_asm (some source) = same source (codes "GMSK_ASM_DATA")

-- What is emitted: the signal type and the payload. Nothing is, and nothing changes, without bits.
unfoldable pub process_bits : NrziCtx → List ℕ → ℕ → Option Bytes → NrziCtx × Option (Bytes × Bytes)
process_bits ctx bit_bytes bit_count source =
    let bits = take bit_count (bits_of bit_bytes) in
    let last = if is_asm source then ctx.last_bit_asm else ctx.last_bit in
    let (decoded, end) = decode_bits ctx.invert last bits in
    let type = if is_asm source then codes "NRZI_ASM_DATA" else codes "NRZI_DATA" in
    if bit_count == 0 then (ctx, none) else (
      if is_asm source then record ctx { last_bit_asm = end } else record ctx { last_bit = end },
      some (type, hex_of (pack decoded)),
    )

-- `mr_plugin_set_param`: the result, and `atoi(value) != 0` for the value.
unfoldable pub set_param : (Bytes → Bool) → NrziCtx → Bytes → Bytes → NrziCtx × Bool
set_param is_nonzero ctx key value =
    if same key (codes "invert")
    then (record ctx { invert = is_nonzero value }, true)
    else (ctx, false)
