-- ===== src/Ais/HdlcInvariant.antt =====
-- The receiver of `Ais.Hdlc` stays within its buffer.
use multi_radio.Common.{
  ◌≤◌, ◌<◌, ◌≡◌, Bool, true, false, [], length, ℕ, ◌+◌, refl, inl, inr, ◌&&◌, Option, none, some,
  List, ◌∷◌, arith, ltb, leb, ◌==◌, if◌then◌else◌, ltb→lt, leb→le, Bool-cases, and_true,
  length-append, All,
}
use multi_radio.Ais.Crc.{hdlc_check_crc}
use multi_radio.Ais.Hdlc.{
  hdlc_max_frame, AisCtx, next_bit, data_bit, restart, frame_at_flag, receive_bit, count_one,
  add_frame, receive,
}

-- The frame fits the buffer, the byte in work has fewer than eight bits, and outside a frame there
-- is nothing in work.
pub record IsValid (c : AisCtx) : Type 0 where
  pub fits : length c.frame_buf ≤ hdlc_max_frame
  pub in_byte : c.bit_pos < 8
  pub idle : c.in_frame ≡ false → c.frame_buf ≡ []

next_bit-IsValid : (c : AisCtx) → c.in_frame ≡ true → IsValid c → IsValid (next_bit c)
unfolding next_bit
next_bit-IsValid c inside v = elim (Bool-cases (c.bit_pos + 1 == 8)) [
  | inl full ↦ elim (Bool-cases (ltb (length c.frame_buf) hdlc_max_frame)) [
    | inl room ↦
        rw (full, room)
          (record {
            fits = omega (
              arith,
              length-append c.frame_buf (c.cur_byte ∷ []),
              ltb→lt (length c.frame_buf) 512 room,
            );
            in_byte = omega arith;
            idle = λ h. cc;
          })
    | inr no_room ↦
        rw (full, no_room) (record { fits = v.fits; in_byte = omega arith; idle = λ h. cc })
  ]
  | inr more ↦
      let room : c.bit_pos + 1 < 8 = ground (arith, more, v.in_byte) in
      rw more (record { fits = v.fits; in_byte = room; idle = λ h. cc })
]

data_bit-IsValid : (c : AisCtx) (b : Bool) → c.in_frame ≡ true → IsValid c → IsValid (data_bit c b)
unfolding data_bit
data_bit-IsValid c true inside v =
    next_bit-IsValid _ inside (record { fits = v.fits; in_byte = v.in_byte; idle = v.idle })
data_bit-IsValid c false inside v = next_bit-IsValid c inside v

-- A frame that is passed on has its check bytes in order, a type and an address at least, and lies in
-- the buffer.
abbrev pub IsFrame : Option (List ℕ) → Type 0
IsFrame none = Unit
IsFrame (some frame) =
    (hdlc_check_crc frame ≡ true) × (5 ≤ length frame) × (length frame ≤ hdlc_max_frame)

counted-IsValid : (c : AisCtx) (n : ℕ) → IsValid c → IsValid (record c { consecutive_ones = n })
counted-IsValid c n v = record { fits = v.fits; in_byte = v.in_byte; idle = v.idle }

restart-IsValid : (c : AisCtx) (on : Bool) → IsValid (restart on c)
restart-IsValid c on = record { fits = omega arith; in_byte = omega arith; idle = λ h. refl }

data_bit_if-IsValid :
    (c : AisCtx) (b on : Bool)
    → (on ≡ true → c.in_frame ≡ true)
    → IsValid c
    → IsValid (if on then data_bit c b else c)
data_bit_if-IsValid c b true inside v = data_bit-IsValid c b (inside refl) v
data_bit_if-IsValid c b false inside v = v

frame_at_flag-IsFrame : (c : AisCtx) → IsValid c → IsFrame (frame_at_flag c)
frame_at_flag-IsFrame c v =
    elim (Bool-cases (c.in_frame && (leb 5 (length c.frame_buf) && hdlc_check_crc c.frame_buf))) [
      | inl ready ↦
          let (on, rest) = and_true c.in_frame _ ready in
          let (long, checked) = and_true (leb 5 (length c.frame_buf)) _ rest in
          rw ready (checked, leb→le 5 (length c.frame_buf) long, v.fits)
      | inr not_ready ↦ rw not_ready tt
    ]

count_one-IsValid : (c : AisCtx) → IsValid c → IsValid (count_one c)
unfolding count_one
count_one-IsValid c v = elim (Bool-cases (ltb 6 (c.consecutive_ones + 1))) [
  | inl many ↦
      rw many (restart-IsValid (record c { consecutive_ones = c.consecutive_ones + 1 }) false)
  | inr few ↦ rw few (counted-IsValid c (c.consecutive_ones + 1) v)
]

add_frame-All :
    (frame : Option (List ℕ)) (frames : List (List ℕ))
    → IsFrame frame
    → All (λ f. IsFrame (some f)) frames
    → All (λ f. IsFrame (some f)) (add_frame frame frames)
add_frame-All none frames h hs = hs
add_frame-All (some f) frames h hs = (h, hs)

receive_bit-IsValid :
    (c : AisCtx) (b : Bool) → IsValid c → IsValid (receive_bit c b).0 × IsFrame (receive_bit c b).1
unfolding receive_bit
receive_bit-IsValid c true v = (
  data_bit_if-IsValid (count_one c) true
      ((count_one c).in_frame && leb (count_one c).consecutive_ones 5)
      (λ h. (and_true (count_one c).in_frame _ h).0) (count_one-IsValid c v),
  tt,
)
receive_bit-IsValid c false v =
    let counted = counted-IsValid c 0 v in
    elim (Bool-cases (c.consecutive_ones == 5)) [
      | inl stuffing ↦ rw stuffing (counted, tt)
      | inr not_stuffing ↦ elim (Bool-cases (c.consecutive_ones == 6)) [
        | inl flag ↦
            rw (not_stuffing, flag)
              (restart-IsValid (record c { consecutive_ones = 0 }) true, frame_at_flag-IsFrame c v)
        | inr not_flag ↦
            rw (not_stuffing, not_flag)
              (
                data_bit_if-IsValid (record c { consecutive_ones = 0 }) false c.in_frame (λ h. h)
                    counted,
                tt,
              )
      ]
    ]

-- From a context that is within its bounds, any bits leave it within its bounds, and every frame
-- passed on is a sound one: its check bytes are in order, it has five bytes at least and it lies in
-- the buffer.
pub receive-IsValid :
    (c : AisCtx) (bits : List Bool)
    → IsValid c
    → IsValid (receive c bits).0 × All (λ frame. IsFrame (some frame)) (receive c bits).1
unfolding receive
receive-IsValid c [] v = (v, tt)
receive-IsValid c (b ∷ bs) v =
    let (step_v, frame_v) = receive_bit-IsValid c b v in
    let (rest_v, frames_v) = receive-IsValid (receive_bit c b).0 bs step_v in
    (rest_v, add_frame-All (receive_bit c b).1 _ frame_v frames_v)
