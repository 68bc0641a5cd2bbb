-- ===== src/Asm/Guards.antt =====
-- Which frames plugins/asm_decoder.c drops.
use multi_radio.Common.{
  ℕ, ◌-◌, ◌≤◌, ◌≡◌, inl, inr, true, ◌&&◌, List, [], ◌∷◌, arith, ltb, leb, Bool-cases, is_some,
  length, length-take, Bytes,
}
use multi_radio.Ais.Bits.{ℤ}
use multi_radio.Ais.Guards.{minimum_of}
use multi_radio.Asm.Format.{ais_u}
use multi_radio.Asm.Weather.{Unwritten}
use multi_radio.Asm.Binary.{message, decode_msg6, decode_msg8, decode_msg12, decode_msg14}
use multi_radio.Asm.Decoder.{dispatch_type, dispatch_frame}

-- The bytes that a message has at least, by its type; a type that is not here has no least length.
abbrev pub asm_minima : List (ℕ × ℕ)
asm_minima =
    (1, 21)
    ∷ (2, 21)
    ∷ (3, 21)
    ∷ (4, 21)
    ∷ (5, 53)
    ∷ (6, 10)
    ∷ (8, 5)
    ∷ (12, 8)
    ∷ (14, 4)
    ∷ (18, 21)
    ∷ (21, 34)
    ∷ (24, 20)
    ∷ []

length-message : (frm : List ℕ) → length (message frm) ≡ length frm - 2
length-message frm = omega (arith, length-take (length frm - 2) frm)

dispatch_type-emits :
    (print5 : ℤ → Bytes) (t : Unwritten) (frm : List ℕ) (msg_type : ℕ)
    → 5 ≤ length frm
    → is_some (dispatch_type print5 t frm (message frm) msg_type)
      ≡ leb (minimum_of asm_minima msg_type) (length (message frm))
unfolding dispatch_type decode_msg6 decode_msg8 decode_msg12 decode_msg14
dispatch_type-emits print5 t frm msg_type enough = ground (arith, length-message frm, enough)

-- A frame is emitted, once, exactly if it has five bytes at least and its message, without the two
-- check bytes, has the least length of its type.
pub dispatch_frame-guards :
    (print5 : ℤ → Bytes) (t : Unwritten) (frm : List ℕ)
    → is_some (dispatch_frame print5 t frm) ≡ (
        leb 5 (length frm)
        && leb (minimum_of asm_minima (ais_u (message frm) 0 6)) (length (message frm)))
unfolding dispatch_frame
dispatch_frame-guards print5 t frm = elim (Bool-cases (ltb (length frm) 5)) [
  | inl short ↦ ground (arith, short)
  | inr long ↦
      let enough : 5 ≤ length frm = ground (arith, long) in
      let there : leb 5 (length frm) ≡ true = ground (arith, enough) in
      rw (long, there) (dispatch_type-emits print5 t frm (ais_u (message frm) 0 6) enough)
]
