-- ===== src/Ais/Hdlc.antt =====
-- The framing of `mr_plugin_process_bits` in plugins/ais_decoder.c. `frame_buf` holds the first
-- `frame_len` bytes of the buffer, which are all that is read of it; the count of ones is a number.
use Prim.Native.Nat.{bit_or}
use multi_radio.Common.{
  ℕ, ◌+◌, ◌/◌, ◌%◌, ◌^◌, Bool, true, false, ◌&&◌, Option, none, some, List, [], ◌∷◌, ◌++◌, ltb, leb,
  ◌==◌, if◌then◌else◌, length, take,
}
use multi_radio.Ais.Crc.{hdlc_check_crc}

abbrev pub hdlc_max_frame : ℕ
hdlc_max_frame = 512

pub record AisCtx : Type 0 where
  pub consecutive_ones : ℕ
  pub in_frame : Bool
  pub cur_byte : ℕ
  pub bit_pos : ℕ
  pub frame_buf : List ℕ

-- The context that `calloc` makes.
abbrev pub new_ctx : AisCtx
new_ctx = record {
  consecutive_ones = 0;
  in_frame = false;
  cur_byte = 0;
  bit_pos = 0;
  frame_buf = [];
}

-- `(bytes[i / 8] >> (7 - i % 8)) & 1` for the bits of one byte, in order.
abbrev pub byte_bits : ℕ → List Bool
byte_bits b =
    (b / 128 % 2 == 1)
    ∷ (b / 64 % 2 == 1)
    ∷ (b / 32 % 2 == 1)
    ∷ (b / 16 % 2 == 1)
    ∷ (b / 8 % 2 == 1)
    ∷ (b / 4 % 2 == 1)
    ∷ (b / 2 % 2 == 1)
    ∷ (b % 2 == 1)
    ∷ []

unfoldable pub bits_of : List ℕ → List Bool
bits_of [] = []
bits_of (b ∷ bs) = byte_bits b ++ bits_of bs

-- `++bit_pos`, and the end of a byte: a byte that does not fit into the buffer is dropped.
unfoldable pub next_bit : AisCtx → AisCtx
next_bit c =
    let full = record c { cur_byte = 0; bit_pos = 0 } in
    if c.bit_pos + 1 == 8
    then (if ltb (length c.frame_buf) hdlc_max_frame
        then record full { frame_buf = c.frame_buf ++ (c.cur_byte ∷ []) }
        else full)
    else record c { bit_pos = c.bit_pos + 1 }

-- A bit of the frame that is not stuffing.
unfoldable pub data_bit : AisCtx → Bool → AisCtx
unfolding next_bit
data_bit c true = next_bit (record c { cur_byte = bit_or c.cur_byte (2 ^ c.bit_pos % 256) })
data_bit c false = next_bit c

abbrev pub restart : Bool → AisCtx → AisCtx
restart in_frame c = record c { in_frame = in_frame; frame_buf = []; bit_pos = 0; cur_byte = 0 }

-- A frame that is passed on to `decode_and_emit`.
abbrev pub frame_at_flag : AisCtx → Option (List ℕ)
frame_at_flag c =
    if c.in_frame && (leb 5 (length c.frame_buf) && hdlc_check_crc c.frame_buf)
    then some c.frame_buf
    else none

-- `++consecutive_ones`; a seventh one aborts the frame.
unfoldable pub count_one : AisCtx → AisCtx
count_one c =
    let counted = record c { consecutive_ones = c.consecutive_ones + 1 } in
    if ltb 6 (c.consecutive_ones + 1) then restart false counted else counted

-- The body of the loop over the bits.
unfoldable pub receive_bit : AisCtx → Bool → AisCtx × Option (List ℕ)
unfolding count_one
receive_bit c true =
    let kept = count_one c in
    (if kept.in_frame && leb kept.consecutive_ones 5 then data_bit kept true else kept, none)
receive_bit c false =
    let counted = record c { consecutive_ones = 0 } in
    if c.consecutive_ones == 5
    then (counted, none)
    else if c.consecutive_ones == 6
    then (restart true counted, frame_at_flag c)
    else (if c.in_frame then data_bit counted false else counted, none)

abbrev pub add_frame : Option (List ℕ) → List (List ℕ) → List (List ℕ)
add_frame none frames = frames
add_frame (some frame) frames = frame ∷ frames

-- The loop: the context after it and the frames passed on, in order.
unfoldable pub receive : AisCtx → List Bool → AisCtx × List (List ℕ)
receive c [] = (c, [])
receive c (b ∷ bs) =
    let (c', frame) = receive_bit c b in
    let (end, frames) = receive c' bs in (end, add_frame frame frames)

unfoldable pub process_bits : AisCtx → List ℕ → ℕ → AisCtx × List (List ℕ)
process_bits c bit_bytes bit_count = receive c (take bit_count (bits_of bit_bytes))
