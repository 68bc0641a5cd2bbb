-- ===== src/Ais/Line.antt =====
-- The whole way of a frame: what a sender of frames puts on the line, through `process_bits` of
-- plugins/nrzi_decoder.c and the hexadecimal text of `EmitFromPlugin`, to the frames of
-- plugins/ais_decoder.c.
use multi_radio.Common.{
  ℕ, suc, ◌+◌, ◌*◌, ◌%◌, ◌^◌, ◌<◌, ◌≡◌, refl, ap, ◌∙◌, Bool, true, false, Option, none, some, List,
  [], ◌∷◌, ◌++◌, map, append-nil, arith, ◌==◌, if◌then◌else◌, length, is_empty, replicate, All,
  Bytes, codes,
}
use multi_radio.Ais.Crc.{all_below_at}
use multi_radio.Ais.Hdlc.{AisCtx, receive, receive_bit, process_bits, data_bit, next_bit, add_frame}
use multi_radio.Ais.Sender.{flag, send, with_fcs, IsSendable}
use multi_radio.Ais.HdlcRoundtrip.{inside, receive-frames}
use multi_radio.Ais.Nrzi.{NrziCtx, decode_bits, differs, pack, hex_of, is_asm}
use multi_radio.Ais.Nrzi as Nrzi
use multi_radio.Ais.Packing.{take-packed, take-packed_bytes, length-pack}
use multi_radio.Ais.Hex.{ReadsDigits, raw_bytes-hex_of, pack-bytes}
use multi_radio.Plugins.Chain.{raw_bytes, bit_count}

-- The line code: a bit is a change of the line, or, inverted, that it stays.
unfoldable pub encode : Bool → Bool → List Bool → List Bool
encode invert last [] = []
encode invert last (b ∷ bs) =
    let cur = differs (differs invert b) last in cur ∷ encode invert cur bs

pub decode_bits-encode :
    (invert last : Bool) (bits : List Bool)
    → (decode_bits invert last (encode invert last bits)).0 ≡ bits
unfolding decode_bits encode
decode_bits-encode invert last [] = refl
decode_bits-encode true true (true ∷ bs) = ap (λ xs. true ∷ xs) (decode_bits-encode true true bs)
decode_bits-encode true true (false ∷ bs) = ap (λ xs. false ∷ xs) (decode_bits-encode true false bs)
decode_bits-encode true false (true ∷ bs) = ap (λ xs. true ∷ xs) (decode_bits-encode true false bs)
decode_bits-encode true false (false ∷ bs) = ap (λ xs. false ∷ xs) (decode_bits-encode true true bs)
decode_bits-encode false true (true ∷ bs) = ap (λ xs. true ∷ xs) (decode_bits-encode false false bs)
decode_bits-encode false true (false ∷ bs) =
    ap (λ xs. false ∷ xs) (decode_bits-encode false true bs)
decode_bits-encode false false (true ∷ bs) = ap (λ xs. true ∷ xs) (decode_bits-encode false true bs)
decode_bits-encode false false (false ∷ bs) =
    ap (λ xs. false ∷ xs) (decode_bits-encode false false bs)

length-encode :
    (invert last : Bool) (bits : List Bool) → length (encode invert last bits) ≡ length bits
unfolding encode
length-encode invert last [] = refl
length-encode invert last (b ∷ bs) =
    ap suc (length-encode invert (differs (differs invert b) last) bs)

add_frame-append :
    (f : Option (List ℕ)) (xs ys : List (List ℕ)) → add_frame f (xs ++ ys) ≡ add_frame f xs ++ ys
add_frame-append none xs ys = refl
add_frame-append (some f) xs ys = refl

receive-append :
    (c : AisCtx) (xs ys : List Bool)
    → (receive c (xs ++ ys)).1 ≡ (receive c xs).1 ++ (receive (receive c xs).0 ys).1
unfolding receive
receive-append c [] ys = refl
receive-append c (x ∷ xs) ys =
    let (c', f) = receive_bit c x in
    ap (add_frame f) (receive-append c' xs ys)
    ∙ add_frame-append f (receive c' xs).1 (receive (receive c' xs).0 ys).1

is_empty_eq : (xs : List (List ℕ)) → is_empty xs ≡ true → xs ≡ []
is_empty_eq [] h = refl
is_empty_eq (x ∷ xs) h = ground arith

-- Behind a flag, fewer than eight zeros make no frame.
receive-zeros : (m : ℕ) → m < 8 → (receive (inside 0 0 0 []) (replicate m false)).1 ≡ []
unfolding receive receive_bit data_bit next_bit
receive-zeros m h =
    let test : ℕ → Bool = λ m. is_empty (receive (inside 0 0 0 []) (replicate m false)).1 in
    is_empty_eq _ (all_below_at 8 test m refl h)

-- The last bit of the line that belongs to a source.
abbrev pub last_of : NrziCtx → Option Bytes → Bool
last_of n source = if is_asm source then n.last_bit_asm else n.last_bit

abbrev pub frames_of : AisCtx → Option (List ℕ) → List (List ℕ)
frames_of c none = []
frames_of c (some bytes) = (process_bits c bytes (bit_count bytes)).1

abbrev pub frames_of_emission : (Bytes → Option ℕ) → AisCtx → Option (Bytes × Bytes) → List (List ℕ)
frames_of_emission scan_hex c none = []
frames_of_emission scan_hex c (some emission) = frames_of c (raw_bytes scan_hex (some emission.1))

-- The frames that come out of the two plugins, one behind the other, for some bits of a line.
abbrev pub frames_through :
    (Bytes → Option ℕ) → NrziCtx → AisCtx → List Bool → Option Bytes → List (List ℕ)
frames_through scan_hex n c line source =
    frames_of_emission scan_hex c (Nrzi.process_bits n (pack line) (length line) source).1

process_bits-padded :
    (c : AisCtx) (bits : List Bool)
    → length bits + 8 < 2 ^ 32
    → (m : ℕ) × (m < 8)
      × (process_bits c (pack bits) (bit_count (pack bits)) ≡ receive c (bits ++ replicate m false))
unfolding process_bits
process_bits-padded c bits short =
    let (m, few, e) = take-packed_bytes bits in
    let exact : length (pack bits) * 8 % 4294967296 ≡ length (pack bits) * 8 =
      omega (arith, length-pack bits, short) in
    (m, few, rw (exact, e) refl)

nrzi_emission :
    (n : NrziCtx) (source : Option Bytes) (bits : List Bool)
    → 0 < length bits
    → (Nrzi.process_bits n
        (pack (encode n.invert (last_of n source) bits))
        (length (encode n.invert (last_of n source) bits))
        source).1
      ≡ some
          ((if is_asm source then codes "NRZI_ASM_DATA" else codes "NRZI_DATA"), hex_of (pack bits))
unfolding Nrzi.process_bits
nrzi_emission n source bits some_bits =
    let line = encode n.invert (last_of n source) bits in
    let filled : (length line == 0) ≡ false =
      ground (arith, some_bits, length-encode n.invert (last_of n source) bits) in
    rw (filled, take-packed line, decode_bits-encode n.invert (last_of n source) bits) refl

-- The padding of the last byte adds no frame.
frames-end :
    (r : AisCtx × List (List ℕ)) (frames : List (List ℕ)) (m : ℕ)
    → r ≡ (inside 0 0 0 [], frames)
    → m < 8
    → r.1 ++ (receive r.0 (replicate m false)).1 ≡ frames
frames-end r frames m e few = rw (e, receive-zeros m few) (append-nil frames)

pack-flag : (bits : List Bool) → 0 < length (pack (flag ++ bits))
unfolding pack
pack-flag bits = omega arith

-- Frames sent behind a flag over the line come out of the two plugins, one behind the other: the
-- decoder of the line and the framing, with the hexadecimal text of the host in between, pass on
-- exactly the frames sent, in order. The line code may be inverted or not and starts from the last
-- bit that the decoder keeps for the source; the framing stands outside a frame; each text has
-- three bytes at least and fits into the buffer with its check bytes, the whole is shorter than 2 ^
-- 32 - 8 bits, and `sscanf` reads the digits that `snprintf` wrote.
pub line_frames :
    (scan_hex : Bytes → Option ℕ) (n : NrziCtx) (c : AisCtx) (source : Option Bytes)
    (texts : List (List ℕ))
    → ReadsDigits scan_hex
    → c.in_frame ≡ false
    → All IsSendable texts
    → length (flag ++ send (map with_fcs texts)) + 8 < 2 ^ 32
    → frames_through scan_hex n c
        (encode n.invert (last_of n source) (flag ++ send (map with_fcs texts)))
        source
      ≡ map with_fcs texts
line_frames scan_hex n c source texts reads off ok short =
    let sent = flag ++ send (map with_fcs texts) in
    let emitted = nrzi_emission n source sent (omega arith) in
    let read =
      raw_bytes-hex_of scan_hex (pack sent) reads (pack-bytes sent)
        (pack-flag (send (map with_fcs texts))) in
    let (m, few, padded) = process_bits-padded c sent short in
    let whole = receive-frames c texts off ok in
    ap (frames_of_emission scan_hex c) emitted
    ∙ ap (frames_of c) read
    ∙ ap (λ (r : AisCtx × List (List ℕ)). r.1) padded
    ∙ receive-append c sent (replicate m false)
    ∙ frames-end (receive c sent) (map with_fcs texts) m whole few
