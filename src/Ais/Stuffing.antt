-- ===== src/Ais/Stuffing.antt =====
-- What a sender of HDLC puts on the line, and that the receiver of `Ais.Hdlc` undoes the stuffing.
use multi_radio.Common.{
  ℕ, ◌+◌, ◌<◌, ◌≡◌, refl, ◌∙◌, inl, inr, Bool, true, false, none, List, [], ◌∷◌, ◌++◌, arith, ◌==◌,
  if◌then◌else◌, Bool-cases,
}
use multi_radio.Ais.Hdlc.{AisCtx, next_bit, data_bit, count_one, receive_bit, receive}

-- A zero after every five ones, with the ones sent so far.
unfoldable pub stuff : ℕ → List Bool → List Bool
stuff k [] = []
stuff k (false ∷ bs) = false ∷ stuff 0 bs
stuff k (true ∷ bs) = if k == 4 then true ∷ false ∷ stuff 0 bs else true ∷ stuff (k + 1) bs

-- The ones that end the bits, without those that a stuffed zero follows.
unfoldable pub ones_after : ℕ → List Bool → ℕ
ones_after k [] = k
ones_after k (false ∷ bs) = ones_after 0 bs
ones_after k (true ∷ bs) = if k == 4 then ones_after 0 bs else ones_after (k + 1) bs

-- The bits of a frame, without the stuffing.
unfoldable pub data_bits : AisCtx → List Bool → AisCtx
data_bits c [] = c
data_bits c (b ∷ bs) = data_bits (data_bit c b) bs

abbrev pub counting : ℕ → AisCtx → AisCtx
counting k c = record c { consecutive_ones = k }

data_bit-counting :
    (c : AisCtx) (k : ℕ) (b : Bool) → data_bit (counting k c) b ≡ counting k (data_bit c b)
unfolding data_bit next_bit
data_bit-counting c k true = ground arith
data_bit-counting c k false = ground arith

data_bit-in_frame : (c : AisCtx) (b : Bool) → (data_bit c b).in_frame ≡ c.in_frame
unfolding data_bit next_bit
data_bit-in_frame c true = ground arith
data_bit-in_frame c false = ground arith

receive_bit-one :
    (c : AisCtx) (k : ℕ)
    → c.in_frame ≡ true
    → k < 5
    → receive_bit (counting k c) true ≡ (counting (k + 1) (data_bit c true), none)
unfolding receive_bit count_one
receive_bit-one c k inside few = ground (arith, few, inside, data_bit-counting c (k + 1) true)

receive_bit-zero :
    (c : AisCtx) (k : ℕ)
    → c.in_frame ≡ true
    → k < 5
    → receive_bit (counting k c) false ≡ (counting 0 (data_bit c false), none)
unfolding receive_bit
receive_bit-zero c k inside few = ground (arith, few, inside, data_bit-counting c 0 false)

receive_bit-stuffing : (c : AisCtx) → receive_bit (counting 5 c) false ≡ (counting 0 c, none)
unfolding receive_bit
receive_bit-stuffing c = refl

pub ones_after-lt : (k : ℕ) (bs : List Bool) → k < 5 → ones_after k bs < 5
unfolding ones_after
ones_after-lt k [] h = h
ones_after-lt k (false ∷ bs) h = ones_after-lt 0 bs (omega arith)
ones_after-lt k (true ∷ bs) h = ground (arith, ones_after-lt 0 bs, ones_after-lt (k + 1) bs)

-- Inside a frame the stuffed bits are received as the bits themselves.
pub receive-stuff :
    (c : AisCtx) (k : ℕ) (bs rest : List Bool)
    → c.in_frame ≡ true
    → k < 5
    → receive (counting k c) (stuff k bs ++ rest)
      ≡ receive (counting (ones_after k bs) (data_bits c bs)) rest
unfolding receive stuff data_bits ones_after
receive-stuff c k [] rest inside few = refl
receive-stuff c k (false ∷ bs) rest inside few =
    rw (receive_bit-zero c k inside few) (
      receive-stuff (data_bit c false) 0 bs rest (data_bit-in_frame c false ∙ inside) (omega arith))
receive-stuff c k (true ∷ bs) rest inside few =
    let inside' = data_bit-in_frame c true ∙ inside in
    elim (Bool-cases (k == 4)) [
      | inl fifth ↦
          let five : k + 1 ≡ 5 = ground (arith, fifth) in
          rw fifth (
            rw (receive_bit-one c k inside few, five, receive_bit-stuffing (data_bit c true))
              (receive-stuff (data_bit c true) 0 bs rest inside' (omega arith)))
      | inr earlier ↦ rw earlier (
          rw (receive_bit-one c k inside few) (
            receive-stuff (data_bit c true) (k + 1) bs rest inside' (ground (arith, few, earlier))))
    ]
