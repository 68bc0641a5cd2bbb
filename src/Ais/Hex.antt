-- ===== src/Ais/Hex.antt =====
-- The hexadecimal text of plugins/nrzi_decoder.c and plugins/ais_decoder.c, as `EmitFromPlugin` of
-- backend/src/plugin_host.cpp reads it back.
use multi_radio.Common.{
  ℕ, ◌+◌, ◌*◌, ◌/◌, ◌%◌, ◌≤◌, ◌<◌, ◌≡◌, refl, Bool, true, false, Option, some, List, [], ◌∷◌, arith,
  ◌==◌, length, All, Bytes,
}
use multi_radio.Ais.Nrzi.{pack, bit_at, hex_of, hex_digit}
use multi_radio.Plugins.Chain.{hex_loop, raw_bytes}

-- What `sscanf` with "%02X" does on two digits that "%02X" wrote, whatever follows.
abbrev pub ReadsDigits : (Bytes → Option ℕ) → Type 0
ReadsDigits scan_hex =
    (hi lo : ℕ) (rest : Bytes)
    → hi < 16
    → lo < 16
    → scan_hex (hex_digit hi ∷ hex_digit lo ∷ rest) ≡ some (16 * hi + lo)

pub length-hex_of : (bytes : List ℕ) → length (hex_of bytes) ≡ length bytes * 2
unfolding hex_of
length-hex_of [] = refl
length-hex_of (b ∷ bs) = omega (arith, length-hex_of bs)

hex_loop-hex_of :
    (scan_hex : Bytes → Option ℕ) (bytes : List ℕ)
    → ReadsDigits scan_hex
    → All (λ b. b < 256) bytes
    → hex_loop scan_hex (length bytes) (hex_of bytes) ≡ some bytes
unfolding hex_loop hex_of
hex_loop-hex_of scan_hex [] reads small = refl
hex_loop-hex_of scan_hex (b ∷ bs) reads small =
    let digits = reads (b / 16) (b % 16) (hex_of bs) (omega (arith, small.0)) (omega arith) in
    let value : (16 * (b / 16) + b % 16) % 256 ≡ b = omega (arith, small.0) in
    rw (digits, hex_loop-hex_of scan_hex bs reads small.1, value) refl

-- The next stage of the chain gets the bytes that were written.
pub raw_bytes-hex_of :
    (scan_hex : Bytes → Option ℕ) (bytes : List ℕ)
    → ReadsDigits scan_hex
    → All (λ b. b < 256) bytes
    → 0 < length bytes
    → raw_bytes scan_hex (some (hex_of bytes)) ≡ some bytes
unfolding raw_bytes
raw_bytes-hex_of scan_hex bytes reads small some_bytes =
    let half : length (hex_of bytes) / 2 ≡ length bytes = omega (arith, length-hex_of bytes) in
    let filled : (0 == length bytes) ≡ false = ground (arith, some_bytes) in
    rw (half, filled) (hex_loop-hex_of scan_hex bytes reads small)

bit_at-le : (weight : ℕ) (b : Bool) → bit_at weight b ≤ weight
bit_at-le weight true = omega arith
bit_at-le weight false = omega arith

-- What is packed is a list of bytes.
pub pack-bytes : (bits : List Bool) → All (λ b. b < 256) (pack bits)
unfolding pack
pack-bytes (a ∷ b ∷ c ∷ d ∷ e ∷ f ∷ g ∷ h ∷ bits) = (
  omega (
    arith,
    bit_at-le 128 a,
    bit_at-le 64 b,
    bit_at-le 32 c,
    bit_at-le 16 d,
    bit_at-le 8 e,
    bit_at-le 4 f,
    bit_at-le 2 g,
    bit_at-le 1 h,
  ),
  pack-bytes bits,
)
pack-bytes [] = tt
pack-bytes (a ∷ []) = (omega (arith, bit_at-le 128 a), tt)
pack-bytes (a ∷ b ∷ []) = (omega (arith, bit_at-le 128 a, bit_at-le 64 b), tt)
pack-bytes (a ∷ b ∷ c ∷ []) = (omega (arith, bit_at-le 128 a, bit_at-le 64 b, bit_at-le 32 c), tt)
pack-bytes (a ∷ b ∷ c ∷ d ∷ []) =
    (omega (arith, bit_at-le 128 a, bit_at-le 64 b, bit_at-le 32 c, bit_at-le 16 d), tt)
pack-bytes (a ∷ b ∷ c ∷ d ∷ e ∷ []) = (
  omega (arith, bit_at-le 128 a, bit_at-le 64 b, bit_at-le 32 c, bit_at-le 16 d, bit_at-le 8 e),
  tt,
)
pack-bytes (a ∷ b ∷ c ∷ d ∷ e ∷ f ∷ []) = (
  omega (
    arith,
    bit_at-le 128 a,
    bit_at-le 64 b,
    bit_at-le 32 c,
    bit_at-le 16 d,
    bit_at-le 8 e,
    bit_at-le 4 f,
  ),
  tt,
)
pack-bytes (a ∷ b ∷ c ∷ d ∷ e ∷ f ∷ g ∷ []) = (
  omega (
    arith,
    bit_at-le 128 a,
    bit_at-le 64 b,
    bit_at-le 32 c,
    bit_at-le 16 d,
    bit_at-le 8 e,
    bit_at-le 4 f,
    bit_at-le 2 g,
  ),
  tt,
)
