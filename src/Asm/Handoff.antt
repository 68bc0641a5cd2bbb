-- ===== src/Asm/Handoff.antt =====
-- A frame that reaches plugins/asm_decoder.c as a text and as bits.
use multi_radio.Common.{
  ℕ, zero, suc, ◌+◌, ◌*◌, ◌/◌, ◌%◌, ◌≤◌, ◌<◌, ◌≡◌, refl, sym, ◌∙◌, true, false, Option, List, [],
  ◌∷◌, ◌++◌, map, arith, leb, ◌==◌, length, take, All, All-append, length-append, Bytes,
}
use multi_radio.Ais.Hdlc
use multi_radio.Ais.Hdlc.{AisCtx, hdlc_max_frame, bits_of}
use multi_radio.Ais.Nrzi.{hex_of, hex_digit}
use multi_radio.Ais.Crc.{crc16, fcs_of}
use multi_radio.Ais.Sender.{flag, send, with_fcs, IsSendable}
use multi_radio.Ais.HdlcRoundtrip.{receive-frames}
use multi_radio.Ais.Bits.{ℤ}
use multi_radio.Asm.Weather.{Unwritten}
use multi_radio.Asm.Decoder.{process_bits, hex_to_bytes, is_handoff, emit_frames}

-- What is asked of `strtol`: two digits as `snprintf` writes them are read as their value.
abbrev pub ReadsPairs : (ℕ → ℕ → ℕ) → Type 0
ReadsPairs scan_byte =
    (hi lo : ℕ) → hi < 16 → lo < 16 → scan_byte (hex_digit hi) (hex_digit lo) ≡ 16 * hi + lo

hex_digit-nonzero : (n : ℕ) → (hex_digit n == 0) ≡ false
hex_digit-nonzero n = ground arith

hex_to_bytes-nul :
    (scan_byte : ℕ → ℕ → ℕ) (behind : List ℕ) (room : ℕ)
    → hex_to_bytes scan_byte (0 ∷ behind) room ≡ []
unfolding hex_to_bytes
hex_to_bytes-nul scan_byte [] room = refl
hex_to_bytes-nul scan_byte (c ∷ behind) zero = refl
hex_to_bytes-nul scan_byte (c ∷ behind) (suc room) = refl

hex_to_bytes-hex_of :
    (scan_byte : ℕ → ℕ → ℕ) (frame behind : List ℕ) (room : ℕ)
    → ReadsPairs scan_byte
    → All (λ b. b < 256) frame
    → length frame ≤ room
    → hex_to_bytes scan_byte (hex_of frame ++ (0 ∷ behind)) room ≡ frame
unfolding hex_to_bytes hex_of
hex_to_bytes-hex_of scan_byte [] behind room reads small fits =
    hex_to_bytes-nul scan_byte behind room
hex_to_bytes-hex_of scan_byte (b ∷ frame) behind zero reads small fits =
    absurd (omega (arith, fits))
hex_to_bytes-hex_of scan_byte (b ∷ frame) behind (suc room) reads small fits =
    let value : 16 * (b / 16) + b % 16 ≡ b = omega (arith, small.0) in
    rw
      (
        hex_digit-nonzero (b / 16),
        hex_digit-nonzero (b % 16),
        reads (b / 16) (b % 16) (omega (arith, small.0)) (omega arith),
        hex_to_bytes-hex_of scan_byte frame behind room reads small.1 (omega (arith, fits)),
        value,
      )
      refl

fcs_of-bytes : (crc : ℕ) → All (λ b. b < 256) (fcs_of crc)
unfolding fcs_of
fcs_of-bytes crc = (omega arith, (omega arith, tt))

with_fcs-fits :
    (text : List ℕ)
    → IsSendable text
    → All (λ b. b < 256) (with_fcs text)
      × (5 ≤ length (with_fcs text))
      × (length (with_fcs text) ≤ hdlc_max_frame)
unfolding with_fcs fcs_of
with_fcs-fits text (small, long, short) =
    let check = fcs_of (crc16 0xffff text) in
    (
      All-append (λ b. b < 256) text check small (fcs_of-bytes (crc16 0xffff text)),
      omega (arith, long, length-append text check),
      omega (arith, short, length-append text check),
    )

module _ (print5 : ℤ → Bytes) (t : Unwritten) (scan_byte : ℕ → ℕ → ℕ) where
  process_bits-framed :
      (ctx : AisCtx) (memory : List ℕ) (bit_count : ℕ) (source : Option Bytes) (text : List ℕ)
      → take bit_count (bits_of memory) ≡ flag ++ send (map with_fcs (text ∷ []))
      → 0 < bit_count
      → is_handoff source ≡ false
      → ctx.in_frame ≡ false
      → IsSendable text
      → (process_bits print5 t scan_byte ctx memory bit_count source).1
        ≡ emit_frames print5 t (with_fcs text ∷ [])
  unfolding process_bits Hdlc.process_bits
  process_bits-framed ctx memory bit_count source text bits some_bits plain off ok =
      let there : (bit_count == 0) ≡ false = ground (arith, some_bits) in
      rw (there, plain, bits, receive-frames ctx (text ∷ []) off (ok, tt)) refl

  process_bits-handed :
      (ctx : AisCtx) (behind : List ℕ) (bit_count : ℕ) (source : Option Bytes) (text : List ℕ)
      → 0 < bit_count
      → is_handoff source ≡ true
      → ReadsPairs scan_byte
      → IsSendable text
      → (process_bits print5 t scan_byte ctx
          (hex_of (with_fcs text) ++ (0 ∷ behind))
          bit_count
          source).1
        ≡ emit_frames print5 t (with_fcs text ∷ [])
  unfolding process_bits
  process_bits-handed ctx behind bit_count source text some_bits handed reads ok =
      let there : (bit_count == 0) ≡ false = ground (arith, some_bits) in
      let (small, long, short) = with_fcs-fits text ok in
      let whole =
        hex_to_bytes-hex_of scan_byte (with_fcs text) behind hdlc_max_frame reads small short in
      let enough : leb 5 (length (with_fcs text)) ≡ true = ground (arith, long) in
      rw (there, handed, whole, enough) refl

  -- A message is emitted alike, or dropped alike, when it arrives in a frame as stuffed bits between
  -- flags and when it is handed over as the hexadecimal text of that frame with a NUL behind it,
  -- whatever memory follows the NUL. The framing stands outside a frame, the message has three
  -- bytes at least and its frame fits into the buffer, and strtol reads the digits of snprintf.
  pub process_bits-two_ways :
      (ctx ctx' : AisCtx) (memory behind : List ℕ) (bit_count text_count : ℕ)
      (source source' : Option Bytes) (text : List ℕ)
      → take bit_count (bits_of memory) ≡ flag ++ send (map with_fcs (text ∷ []))
      → 0 < bit_count
      → 0 < text_count
      → is_handoff source ≡ false
      → is_handoff source' ≡ true
      → ctx.in_frame ≡ false
      → ReadsPairs scan_byte
      → IsSendable text
      → (process_bits print5 t scan_byte ctx memory bit_count source).1
        ≡ (process_bits print5 t scan_byte ctx'
            (hex_of (with_fcs text) ++ (0 ∷ behind))
            text_count
            source').1
  process_bits-two_ways ctx ctx' memory behind bit_count text_count source source' text bits
        some_bits some_text plain handed off reads ok =
      process_bits-framed ctx memory bit_count source text bits some_bits plain off ok
      ∙ sym (process_bits-handed ctx' behind text_count source' text some_text handed reads ok)
