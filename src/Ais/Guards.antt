-- ===== src/Ais/Guards.antt =====
-- Which frames `decode_and_emit` of plugins/ais_decoder.c drops.
use multi_radio.Ais.Bits.{ais_bits}
use multi_radio.Common.{
  ℕ, ◌-◌, ◌≡◌, ◌&&◌, List, [], ◌∷◌, arith, leb, ◌==◌, if◌then◌else◌, is_some, length, take,
}
use multi_radio.Ais.Dispatch.{dispatch, decode_and_emit}

-- The bytes that a message has at least, by its type.
abbrev pub minimum_of : List (ℕ × ℕ) → ℕ → ℕ
minimum_of [] msg_type = 0
minimum_of ((t, bytes) ∷ table) msg_type =
    if msg_type == t then bytes else minimum_of table msg_type

abbrev pub minima : List (ℕ × ℕ)
minima =
    (1, 21)
    ∷ (2, 21)
    ∷ (3, 21)
    ∷ (4, 21)
    ∷ (5, 53)
    ∷ (6, 11)
    ∷ (8, 7)
    ∷ (9, 21)
    ∷ (12, 9)
    ∷ (14, 5)
    ∷ (18, 21)
    ∷ (19, 39)
    ∷ (21, 34)
    ∷ (24, 20)
    ∷ []

dispatch-emits :
    (frame d : List ℕ) (msg_type : ℕ)
    → is_some (dispatch frame d msg_type) ≡ leb (minimum_of minima msg_type) (length d)
unfolding dispatch
dispatch-emits frame d msg_type = ground arith

-- A frame is emitted exactly if it has five bytes at least and its message, without the two check
-- bytes, has the least length of its type; nothing is emitted for any other frame. A type that is
-- not in the table has no least length.
pub decode_and_emit-guards :
    (frame : List ℕ)
    → is_some (decode_and_emit frame) ≡ (
        leb 5 (length frame)
        && leb
            (minimum_of minima (ais_bits (take (length frame - 2) frame) 0 6))
            (length (take (length frame - 2) frame)))
unfolding decode_and_emit
decode_and_emit-guards frame =
    let d = take (length frame - 2) frame in ground (arith, dispatch-emits frame d (ais_bits d 0 6))
