-- ===== src/Ais/HdlcRoundtrip.antt =====
-- What a sender puts on the line comes out of the receiver of `Ais.Hdlc`.
use Prim.Native.Nat.{bit_or}
use multi_radio.Common.{
  ℕ, ◌+◌, ◌%◌, ◌^◌, ◌≤◌, ◌<◌, ◌≡◌, refl, sym, ap, ◌∙◌, inl, inr, Bool, true, false, none, some,
  List, [], ◌∷◌, ◌++◌, map, append-nil, append_assoc, arith, leb, ◌==◌, if◌then◌else◌, lt→ltb,
  ==_iff, Bool-cases, length, drop, All, All-append, length-append,
}
use multi_radio.Ais.Crc.{crc16, hdlc_check_crc, fcs_of, all_below_at, crc16-lt, hdlc_check_crc-fcs}
use multi_radio.Ais.Hdlc.{
  hdlc_max_frame, AisCtx, next_bit, data_bit, frame_at_flag, count_one, receive_bit, add_frame,
  receive,
}
use multi_radio.Ais.Stuffing.{stuff, ones_after, data_bits, counting, ones_after-lt, receive-stuff}
use multi_radio.Ais.Sender.{sent_bits, frame_bits, flag, send, with_fcs, IsSendable}

-- Inside a frame, with some bits of a byte and some bytes.
abbrev pub inside : ℕ → ℕ → ℕ → List ℕ → AisCtx
inside k cur pos buf = record {
  consecutive_ones = k;
  in_frame = true;
  cur_byte = cur;
  bit_pos = pos;
  frame_buf = buf;
}

-- The byte that bits make, from a position on.
abbrev assemble : ℕ → ℕ → List Bool → ℕ
assemble pos cur [] = cur
assemble pos cur (true ∷ bs) = assemble (pos + 1) (bit_or cur (2 ^ pos % 256)) bs
assemble pos cur (false ∷ bs) = assemble (pos + 1) cur bs

assemble-sent_bits : (b : ℕ) → b < 256 → assemble 0 0 (sent_bits b) ≡ b
assemble-sent_bits b h =
    (==_iff _ b).0 (all_below_at 256 (λ x. assemble 0 0 (sent_bits x) == x) b refl h)

next_bit-last :
    (k cur : ℕ) (buf : List ℕ)
    → length buf < hdlc_max_frame
    → next_bit (inside k cur 7 buf) ≡ inside k 0 0 (buf ++ (cur ∷ []))
unfolding next_bit
next_bit-last k cur buf room = rw (lt→ltb (length buf) 512 room) refl

next_bit-more :
    (k cur pos : ℕ) (buf : List ℕ)
    → pos < 7
    → next_bit (inside k cur pos buf) ≡ inside k cur (pos + 1) buf
unfolding next_bit
next_bit-more k cur pos buf h = let more : (pos + 1 == 8) ≡ false = ground arith in rw more refl

data_bits-byte :
    (k cur pos : ℕ) (buf : List ℕ) (b : Bool) (bs : List Bool)
    → pos + length bs ≡ 7
    → length buf < hdlc_max_frame
    → data_bits (inside k cur pos buf) (b ∷ bs)
      ≡ inside k 0 0 (buf ++ (assemble pos cur (b ∷ bs) ∷ []))
unfolding data_bits data_bit
data_bits-byte k cur pos buf true [] e room =
    let last : pos ≡ 7 = omega arith in
    rw last (next_bit-last k (bit_or cur (2 ^ 7 % 256)) buf room)
data_bits-byte k cur pos buf false [] e room =
    let last : pos ≡ 7 = omega arith in rw last (next_bit-last k cur buf room)
data_bits-byte k cur pos buf true (b ∷ bs) e room =
    let cur' = bit_or cur (2 ^ pos % 256) in
    rw (next_bit-more k cur' pos buf (omega arith))
      (data_bits-byte k cur' (pos + 1) buf b bs (omega arith) room)
data_bits-byte k cur pos buf false (b ∷ bs) e room =
    rw (next_bit-more k cur pos buf (omega arith))
      (data_bits-byte k cur (pos + 1) buf b bs (omega arith) room)

data_bits-append :
    (c : AisCtx) (xs ys : List Bool) → data_bits c (xs ++ ys) ≡ data_bits (data_bits c xs) ys
unfolding data_bits
data_bits-append c [] ys = refl
data_bits-append c (x ∷ xs) ys = data_bits-append (data_bit c x) xs ys

data_bits-frame_bits :
    (k : ℕ) (buf bytes : List ℕ)
    → All (λ b. b < 256) bytes
    → length buf + length bytes ≤ hdlc_max_frame
    → data_bits (inside k 0 0 buf) (frame_bits bytes) ≡ inside k 0 0 (buf ++ bytes)
unfolding frame_bits data_bits
data_bits-frame_bits k buf [] small room = ap (inside k 0 0) (sym (append-nil buf))
data_bits-frame_bits k buf (b ∷ bs) small room =
    data_bits-append (inside k 0 0 buf) (sent_bits b) (frame_bits bs)
    ∙ ap (λ c. data_bits c (frame_bits bs))
        (data_bits-byte k 0 0 buf (b % 2 == 1) (drop 1 (sent_bits b)) refl (omega (arith, room))
          ∙ ap (λ x. inside k 0 0 (buf ++ (x ∷ []))) (assemble-sent_bits b small.0))
    ∙ data_bits-frame_bits k (buf ++ (b ∷ [])) bs small.1
        (omega (arith, room, length-append buf (b ∷ [])))
    ∙ ap (inside k 0 0) (append_assoc buf (b ∷ []) bs)

frame_at_flag-ready :
    (cur pos : ℕ) (buf : List ℕ)
    → hdlc_check_crc buf ≡ true
    → 5 ≤ length buf
    → frame_at_flag (inside 6 cur pos buf) ≡ some buf
frame_at_flag-ready cur pos buf checked long =
    let enough : leb 5 (length buf) ≡ true = ground (arith, long) in rw (enough, checked) refl

-- The end of a flag, behind its first ones.
receive-flag_end :
    (cur : ℕ) (buf : List ℕ) (rest : List Bool)
    → receive (inside 4 cur 5 buf) (true ∷ true ∷ false ∷ rest) ≡ (
      (receive (inside 0 0 0 []) rest).0,
      add_frame (frame_at_flag (inside 6 (bit_or cur 32) 6 buf)) (receive (inside 0 0 0 []) rest).1,
    )
unfolding receive receive_bit count_one data_bit next_bit
receive-flag_end cur buf rest = refl

-- The flag behind a whole number of bytes ends the frame.
receive-flag :
    (k : ℕ) (buf : List ℕ) (rest : List Bool)
    → k < 5
    → hdlc_check_crc buf ≡ true
    → 5 ≤ length buf
    → receive (inside k 0 0 buf) (flag ++ rest)
      ≡ ((receive (inside 0 0 0 []) rest).0, buf ∷ (receive (inside 0 0 0 []) rest).1)
unfolding stuff ones_after data_bits data_bit next_bit
receive-flag k buf rest few checked long =
    receive-stuff (inside k 0 0 buf) k (false ∷ true ∷ true ∷ true ∷ true ∷ [])
      (true ∷ true ∷ false ∷ rest) refl few
    ∙ receive-flag_end 30 buf rest
    ∙ ap (λ f. ((receive (inside 0 0 0 []) rest).0, add_frame f (receive (inside 0 0 0 []) rest).1))
        (frame_at_flag-ready 62 6 buf checked long)

fcs_of-bytes : (crc : ℕ) → crc < 2 ^ 16 → All (λ b. b < 256) (fcs_of crc)
unfolding fcs_of
fcs_of-bytes crc h = (omega arith, (omega arith, tt))

receive-send :
    (texts : List (List ℕ))
    → All IsSendable texts
    → receive (inside 0 0 0 []) (send (map with_fcs texts)) ≡ (inside 0 0 0 [], map with_fcs texts)
unfolding send with_fcs receive fcs_of
receive-send [] ok = refl
receive-send (t ∷ ts) ok =
    let small = ok.0.0 in
    let crc = crc16 0xffff t in
    let frame = t ++ fcs_of crc in
    let small' =
      All-append (λ b. b < 256) t (fcs_of crc) small
        (fcs_of-bytes crc (crc16-lt 0xffff t (omega arith) small)) in
    let size : length frame ≡ length t + 2 = length-append t (fcs_of crc) in
    receive-stuff (inside 0 0 0 []) 0 (frame_bits frame) (flag ++ send (map with_fcs ts)) refl
      (omega arith)
    ∙ ap
        (λ c.
          receive (counting (ones_after 0 (frame_bits frame)) c) (flag ++ send (map with_fcs ts)))
        (data_bits-frame_bits 0 [] frame small' (omega (arith, size, ok.0.2)))
    ∙ receive-flag (ones_after 0 (frame_bits frame)) frame (send (map with_fcs ts))
        (ones_after-lt 0 (frame_bits frame) (omega arith)) (hdlc_check_crc-fcs t small)
        (omega (arith, size, ok.0.1))
    ∙ ap (λ (r : AisCtx × List (List ℕ)). (r.0, frame ∷ r.1)) (receive-send ts ok.1)

outside : ℕ → ℕ → ℕ → List ℕ → AisCtx
outside k cur pos buf = record {
  consecutive_ones = k;
  in_frame = false;
  cur_byte = cur;
  bit_pos = pos;
  frame_buf = buf;
}

flag_rest : List Bool → List Bool
flag_rest rest = true ∷ true ∷ true ∷ true ∷ true ∷ true ∷ false ∷ rest

-- From a whole number of bytes, the ones of a flag and its end start a frame anew.
receive-restart :
    (rest : List Bool) → receive (inside 0 0 0 []) (flag_rest rest) ≡ receive (inside 0 0 0 []) rest
unfolding receive receive_bit count_one data_bit next_bit flag_rest
receive-restart rest = refl

receive-start :
    (cur pos : ℕ) (buf : List ℕ) (rest : List Bool)
    → receive (outside 0 cur pos buf) (flag_rest rest) ≡ receive (inside 0 0 0 []) rest
unfolding receive receive_bit count_one data_bit next_bit flag_rest outside
receive-start cur pos buf rest = refl

-- A zero outside a frame ends a run of six ones in front of it, and else changes the count alone.
receive_bit-outside :
    (k cur pos : ℕ) (buf : List ℕ)
    → receive_bit (outside k cur pos buf) false
      ≡ ((if k == 6 then inside 0 0 0 [] else outside 0 cur pos buf), none)
unfolding receive_bit outside
receive_bit-outside k cur pos buf = elim (Bool-cases (k == 5)) [
  | inl five ↦ let not_six : (k == 6) ≡ false = ground (arith, five) in rw (five, not_six) refl
  | inr not_five ↦ elim (Bool-cases (k == 6)) [
    | inl six ↦ rw (not_five, six) refl
    | inr not_six ↦ rw (not_five, not_six) refl
  ]
]

receive-first :
    (six : Bool) (cur pos : ℕ) (buf : List ℕ) (rest : List Bool)
    → receive (if six then inside 0 0 0 [] else outside 0 cur pos buf) (flag_rest rest)
      ≡ receive (inside 0 0 0 []) rest
receive-first true cur pos buf rest = receive-restart rest
receive-first false cur pos buf rest = receive-start cur pos buf rest

receive-step :
    (c c' : AisCtx) (bits : List Bool)
    → receive_bit c false ≡ (c', none)
    → receive c (false ∷ bits) ≡ receive c' bits
unfolding receive
receive-step c c' bits e = rw e refl

-- A flag opens a frame wherever the receiver stands outside one.
receive-opening :
    (k cur pos : ℕ) (buf : List ℕ) (rest : List Bool)
    → receive (outside k cur pos buf) (flag ++ rest) ≡ receive (inside 0 0 0 []) rest
unfolding flag_rest
receive-opening k cur pos buf rest =
    receive-step (outside k cur pos buf) (if k == 6 then inside 0 0 0 [] else outside 0 cur pos buf)
      (flag_rest rest) (receive_bit-outside k cur pos buf)
    ∙ receive-first (k == 6) cur pos buf rest

-- Whatever stands in a receiver that is outside a frame, it passes on exactly the frames that are
-- sent behind a flag, each with its check bytes, in order, and is ready for the next. A text has
-- three bytes at least and fits into the buffer with its check bytes.
pub receive-frames :
    (c : AisCtx) (texts : List (List ℕ))
    → c.in_frame ≡ false
    → All IsSendable texts
    → receive c (flag ++ send (map with_fcs texts)) ≡ (inside 0 0 0 [], map with_fcs texts)
unfolding outside
receive-frames c texts off ok =
    ap (λ on. receive (record c { in_frame = on }) (flag ++ send (map with_fcs texts))) off
    ∙ receive-opening c.consecutive_ones c.cur_byte c.bit_pos c.frame_buf
        (send (map with_fcs texts))
    ∙ receive-send texts ok
