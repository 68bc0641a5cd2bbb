-- ===== src/Ais/Signed.antt =====
-- The signed fields of a message in plugins/ais_decoder.c, and where fields in a row stand.
use Prim.Native.Nat.{bit_or, bit_or-bitwise, digits}
use multi_radio.Common.{
  ℕ, zero, suc, ◌+◌, ◌-◌, ◌*◌, ◌/◌, ◌%◌, ◌^◌, ◌≤◌, ◌<◌, max, ◌≡◌, refl, sym, ap, ap₂, ◌∙◌, Bool,
  false, List, [], ◌∷◌, ◌++◌, append_assoc, arith, ltb, ◌==◌, if◌then◌else◌, length, length-append,
}
use multi_radio.Ais.Nrzi.{pack}
use multi_radio.Ais.Bits.{ℤ, pos, negsuc, to_int64, ais_bits, ais_signed}
use multi_radio.Ais.BitsLaws.{field_bits, length-field_bits, ais_bits-middle, shifted}

-- Fields in a row, each with its length.
unfoldable pub message_bits : List (ℕ × ℕ) → List Bool
message_bits [] = []
message_bits ((len, v) ∷ fields) = field_bits len v ++ message_bits fields

abbrev pub width : List (ℕ × ℕ) → ℕ
width [] = 0
width ((len, v) ∷ fields) = len + width fields

pub length-message_bits : (fields : List (ℕ × ℕ)) → length (message_bits fields) ≡ width fields
unfolding message_bits
length-message_bits [] = refl
length-message_bits ((len, v) ∷ fields) = omega (
  arith,
  length-append (field_bits len v) (message_bits fields),
  length-field_bits len v,
  length-message_bits fields,
)

message_bits-append :
    (xs ys : List (ℕ × ℕ)) → message_bits (xs ++ ys) ≡ message_bits xs ++ message_bits ys
unfolding message_bits
message_bits-append [] ys = refl
message_bits-append ((len, v) ∷ xs) ys =
    ap (λ bs. field_bits len v ++ bs) (message_bits-append xs ys)
    ∙ sym (append_assoc (field_bits len v) (message_bits xs) (message_bits ys))

-- A field is read at the width of those in front of it.
pub ais_bits-field :
    (pre post : List (ℕ × ℕ)) (len v : ℕ)
    → v < 2 ^ len
    → ais_bits (pack (message_bits (pre ++ ((len, v) ∷ post)))) (width pre) len ≡ v
unfolding message_bits
ais_bits-field pre post len v h =
    ap₂ (λ bs at. ais_bits (pack bs) at len) (message_bits-append pre ((len, v) ∷ post))
      (sym (length-message_bits pre))
    ∙ ais_bits-middle (message_bits pre) (message_bits post) len v h

-- Bits below the ones that are set.
digits-above :
    (n f a m : ℕ) → a < 2 ^ n → a ≤ f → digits (λ b. b) max f a (shifted n m) ≡ a + shifted n m
unfolding shifted
digits-above n zero a m small h = omega arith
digits-above n (suc f) zero m small h = omega arith
digits-above zero (suc f) (suc a) m small h = absurd (omega arith)
digits-above (suc n) (suc f) (suc a) m small h =
    let halved : 2 * shifted n m / 2 ≡ shifted n m = omega arith in
    let rest : digits (λ b. b) max f (suc a / 2) (2 * shifted n m / 2) ≡ suc a / 2 + shifted n m =
      ap (digits (λ b. b) max f (suc a / 2)) halved
      ∙ digits-above n f (suc a / 2) m (omega arith) (omega arith) in
    omega (arith, rest)

bit_or-above : (n a m : ℕ) → a < 2 ^ n → bit_or a (shifted n m) ≡ a + shifted n m
bit_or-above n a m small = bit_or-bitwise a (shifted n m) ∙ digits-above n a a m small (omega arith)

-- Two's complement in some bits.
abbrev pub twos_complement : ℕ → ℤ → ℕ
twos_complement len (pos n) = n
twos_complement len (negsuc n) = 2 ^ len - 1 - n

abbrev pub magnitude : ℤ → ℕ
magnitude (pos n) = n
magnitude (negsuc n) = n

-- The bits above a field, filled with its sign.
abbrev pub ExtendsSign : ℕ → Type 0
ExtendsSign len =
    (z : ℤ)
    → magnitude z < 2 ^ (len - 1)
    → (twos_complement len z < 2 ^ len)
      × (to_int64 (
            if twos_complement len z / 2 ^ (len - 1) % 2 == 1
            then twos_complement len z + (2 ^ 64 - 2 ^ len)
            else twos_complement len z)
          ≡ z)

extends-27 : ExtendsSign 27
extends-27 (pos n) h = (omega arith, ground arith)
extends-27 (negsuc n) h =
    let sign : (134217727 - n) / 67108864 % 2 ≡ 1 = omega arith in
    let large : ltb ((134217727 - n) + 18446744073575333888) 9223372036854775808 ≡ false =
      ground arith in
    let back : 18446744073709551615 - ((134217727 - n) + 18446744073575333888) ≡ n = omega arith in
    (omega arith, rw (sign, large) (ap negsuc back))

extends-28 : ExtendsSign 28
extends-28 (pos n) h = (omega arith, ground arith)
extends-28 (negsuc n) h =
    let sign : (268435455 - n) / 134217728 % 2 ≡ 1 = omega arith in
    let large : ltb ((268435455 - n) + 18446744073441116160) 9223372036854775808 ≡ false =
      ground arith in
    let back : 18446744073709551615 - ((268435455 - n) + 18446744073441116160) ≡ n = omega arith in
    (omega arith, rw (sign, large) (ap negsuc back))

ais_signed-field :
    (pre post : List (ℕ × ℕ)) (len m : ℕ) (z : ℤ)
    → ExtendsSign len
    → 2 ^ 64 - 2 ^ len ≡ shifted len m
    → magnitude z < 2 ^ (len - 1)
    → ais_signed
        (pack (message_bits (pre ++ ((len, twos_complement len z) ∷ post))))
        (width pre)
        len
      ≡ z
unfolding ais_signed
ais_signed-field pre post len m z extends ones h =
    let u = twos_complement len z in
    let (small, extended) = extends z h in
    let filled = ap (bit_or u) ones ∙ bit_or-above len u m small ∙ ap (λ x. u + x) (sym ones) in
    ap (λ u. to_int64 (if u / 2 ^ (len - 1) % 2 == 1 then bit_or u (2 ^ 64 - 2 ^ len) else u))
      (ais_bits-field pre post len u small)
    ∙ ap (λ w. to_int64 (if u / 2 ^ (len - 1) % 2 == 1 then w else u)) filled
    ∙ extended

-- A latitude and a longitude.
pub ais_signed-lat :
    (pre post : List (ℕ × ℕ)) (z : ℤ)
    → magnitude z < 2 ^ 26
    → ais_signed (pack (message_bits (pre ++ ((27, twos_complement 27 z) ∷ post)))) (width pre) 27
      ≡ z
unfolding shifted
ais_signed-lat pre post z h = ais_signed-field pre post 27 (2 ^ 37 - 1) z extends-27 refl h

pub ais_signed-lon :
    (pre post : List (ℕ × ℕ)) (z : ℤ)
    → magnitude z < 2 ^ 27
    → ais_signed (pack (message_bits (pre ++ ((28, twos_complement 28 z) ∷ post)))) (width pre) 28
      ≡ z
unfolding shifted
ais_signed-lon pre post z h = ais_signed-field pre post 28 (2 ^ 36 - 1) z extends-28 refl h
