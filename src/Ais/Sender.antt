-- ===== src/Ais/Sender.antt =====
-- The sender of the frames that plugins/ais_decoder.c receives: bytes with check bytes, stuffing and
-- flags.
use multi_radio.Common.{
  ℕ, ◌+◌, ◌/◌, ◌%◌, ◌≤◌, ◌<◌, Bool, true, false, List, [], ◌∷◌, ◌++◌, ◌==◌, length, All,
}
use multi_radio.Ais.Crc.{crc16, fcs_of}
use multi_radio.Ais.Hdlc.{hdlc_max_frame}
use multi_radio.Ais.Stuffing.{stuff}

-- The bits of a byte as they are sent, the lowest first.
abbrev pub sent_bits : ℕ → List Bool
sent_bits b =
    (b % 2 == 1)
    ∷ (b / 2 % 2 == 1)
    ∷ (b / 4 % 2 == 1)
    ∷ (b / 8 % 2 == 1)
    ∷ (b / 16 % 2 == 1)
    ∷ (b / 32 % 2 == 1)
    ∷ (b / 64 % 2 == 1)
    ∷ (b / 128 % 2 == 1)
    ∷ []

unfoldable pub frame_bits : List ℕ → List Bool
frame_bits [] = []
frame_bits (b ∷ bs) = sent_bits b ++ frame_bits bs

abbrev pub flag : List Bool
flag = false ∷ true ∷ true ∷ true ∷ true ∷ true ∷ true ∷ false ∷ []

-- Frames, each with its stuffing and the flag behind it.
unfoldable pub send : List (List ℕ) → List Bool
send [] = []
send (f ∷ fs) = stuff 0 (frame_bits f) ++ (flag ++ send fs)

-- A text with its check bytes.
unfoldable pub with_fcs : List ℕ → List ℕ
with_fcs bytes = bytes ++ fcs_of (crc16 0xffff bytes)

-- A text of bytes that is a frame with its check bytes.
abbrev pub IsSendable : List ℕ → Type 0
IsSendable bytes =
    All (λ b. b < 256) bytes × (3 ≤ length bytes) × (length bytes + 2 ≤ hdlc_max_frame)
