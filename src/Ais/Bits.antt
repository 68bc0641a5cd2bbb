-- ===== src/Ais/Bits.antt =====
-- The bits of a message: `ais_bits`, `ais_signed` and `ais_text` of plugins/ais_decoder.c. The bytes
-- are the message without its check bytes.
use Prim.Native.Nat.{bit_or}
use multi_radio.Common.{
  ℕ, zero, suc, ◌+◌, ◌-◌, ◌/◌, ◌%◌, ◌^◌, Bool, ◌&&◌, ◌||◌, List, [], ◌∷◌, ltb, ◌==◌, if◌then◌else◌,
  length, is_empty, get_or, Bytes,
}

-- `data[bidx] & (1u << boff)` with its test for the end of the data.
abbrev pub bit_set : List ℕ → ℕ → Bool
bit_set bytes abs =
    ltb (abs / 8) (length bytes) && (get_or bytes (abs / 8) 0 / 2 ^ (7 - abs % 8) % 2 == 1)

-- The loop, with the bits to go.
unfoldable pub bits_loop : List ℕ → ℕ → ℕ → ℕ → ℕ
bits_loop bytes zero abs r = r
bits_loop bytes (suc n) abs r =
    bits_loop bytes n (abs + 1) (if bit_set bytes abs then bit_or r (2 ^ n) else r)

unfoldable pub ais_bits : List ℕ → ℕ → ℕ → ℕ
unfolding bits_loop
ais_bits bytes start len = bits_loop bytes len start 0

-- `int64_t`: `negsuc n` is - (n + 1).
pub data ℤ : Type 0 where
  pos : ℕ → ℤ
  negsuc : ℕ → ℤ

-- The cast from `uint64_t`.
abbrev pub to_int64 : ℕ → ℤ
to_int64 u = if ltb u (2 ^ 63) then pos u else negsuc (2 ^ 64 - 1 - u)

unfoldable pub ais_signed : List ℕ → ℕ → ℕ → ℤ
unfolding ais_bits
ais_signed bytes start len =
    let u = ais_bits bytes start len in
    to_int64 (if u / 2 ^ (len - 1) % 2 == 1 then bit_or u (2 ^ 64 - 2 ^ len) else u)

abbrev pub ais_char : ℕ → ℕ
ais_char v = if ltb v 32 then v + 64 else v

unfoldable pub ais_chars : List ℕ → ℕ → ℕ → Bytes
unfolding ais_bits
ais_chars bytes start zero = []
ais_chars bytes start (suc n) = ais_char (ais_bits bytes start 6) ∷ ais_chars bytes (start + 6) n

-- A character goes only if nothing stays behind it.
unfoldable pub trim_end : Bytes → Bytes
trim_end [] = []
trim_end (c ∷ s) =
    let rest = trim_end s in if is_empty rest && (c == b' ' || c == b'@') then [] else c ∷ rest

unfoldable pub ais_text : List ℕ → ℕ → ℕ → Bytes
unfolding ais_chars trim_end
ais_text bytes start num_chars = trim_end (ais_chars bytes start num_chars)
