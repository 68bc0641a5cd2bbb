-- ===== src/Ais/Crc.antt =====
-- The frame check of plugins/ais_decoder.c: CRC-16-CCITT, reflected.
use Prim.Native.Nat.{bit_xor, bit_xor-bitwise, digits, differ}
use multi_radio.Common.{
  ℕ, zero, suc, ◌+◌, ◌-◌, ◌*◌, ◌/◌, ◌%◌, ◌≡◌, refl, Bool, true, ◌&&◌, List, [], ◌∷◌, ◌==◌,
  if◌then◌else◌, ◌^◌, ◌<◌, sym, subst, ◌∙◌, ◌++◌, arith, ==_iff, All, ◌≤◌, max,
}

-- One round of the loop over the bits.
abbrev pub crc16_bit : ℕ → ℕ
crc16_bit crc = if crc % 2 == 1 then bit_xor (crc / 2) 0x8408 else crc / 2

unfoldable pub crc16_loop : ℕ → ℕ → ℕ
crc16_loop zero crc = crc
crc16_loop (suc n) crc = crc16_loop n (crc16_bit crc)

unfoldable pub crc16_byte : ℕ → ℕ → ℕ
unfolding crc16_loop
crc16_byte crc byte = crc16_loop 8 (bit_xor crc byte)

unfoldable pub crc16 : ℕ → List ℕ → ℕ
crc16 crc [] = crc
crc16 crc (b ∷ bs) = crc16 (crc16_byte crc b) bs

unfoldable pub hdlc_check_crc : List ℕ → Bool
unfolding crc16
hdlc_check_crc buf = crc16 0xffff buf == 0xf0b8

-- The check bytes that a sender appends: the complement of the remainder, its low byte first.
unfoldable pub fcs_of : ℕ → List ℕ
fcs_of crc = (255 - crc % 256) ∷ (255 - crc / 256) ∷ []

-- Over a small range, every value by evaluation.
abbrev pub all_below : ℕ → (ℕ → Bool) → Bool
all_below zero p = true
all_below (suc n) p = p n && all_below n p

pub all_below_at : (n : ℕ) (p : ℕ → Bool) (x : ℕ) → all_below n p ≡ true → x < n → p x ≡ true
all_below_at zero p x h lt = absurd (omega arith)
all_below_at (suc n) p x h lt = ground (arith, all_below_at n p x)

abbrev residue_at : ℕ → ℕ → Bool
residue_at h l = crc16_byte (crc16_byte (256 * h + l) (255 - l)) (255 - h) == 0xf0b8

residue_table : all_below 256 (λ h. all_below 256 (residue_at h)) ≡ true
unfolding crc16_byte
residue_table = refl

residue_lem :
    (crc : ℕ)
    → crc < 65536
    → crc16_byte (crc16_byte crc (255 - crc % 256)) (255 - crc / 256) ≡ 0xf0b8
residue_lem crc h =
    let row =
      all_below_at 256 (λ h. all_below 256 (residue_at h)) (crc / 256) residue_table
        (omega arith) in
    let cell = all_below_at 256 (residue_at (crc / 256)) (crc % 256) row (omega arith) in
    let split : 256 * (crc / 256) + crc % 256 ≡ crc = omega arith in
    (==_iff _ 0xf0b8).0 (
      subst (λ c. (crc16_byte (crc16_byte c (255 - crc % 256)) (255 - crc / 256) == 0xf0b8) ≡ true)
        split cell)

differ-le : (x y : ℕ) → differ x y ≤ max x y
differ-le zero y = omega arith
differ-le (suc x) zero = omega arith
differ-le (suc x) (suc y) = omega (arith, differ-le x y)

digits-lt : (n k a b : ℕ) → a < 2 ^ k → b < 2 ^ k → digits (λ c. c) differ n a b < 2 ^ k
digits-lt zero k a b ha hb = hb
digits-lt (suc n) k zero b ha hb = hb
digits-lt (suc n) zero (suc a) b ha hb = absurd (omega arith)
digits-lt (suc n) (suc k) (suc a) b ha hb =
    let rest = digits-lt n k (suc a / 2) (b / 2) (omega arith) (omega arith) in
    ground (arith, rest, differ-le (suc a % 2) (b % 2))

bit_xor-lt : (a b : ℕ) → a < 2 ^ 16 → b < 2 ^ 16 → bit_xor a b < 2 ^ 16
bit_xor-lt a b ha hb =
    subst (λ c. c < 2 ^ 16) (sym (bit_xor-bitwise a b)) (digits-lt a 16 a b ha hb)

crc16_loop-lt : (n crc : ℕ) → crc < 2 ^ 16 → crc16_loop n crc < 2 ^ 16
unfolding crc16_loop
crc16_loop-lt zero crc h = h
crc16_loop-lt (suc n) crc h =
    crc16_loop-lt n (crc16_bit crc) (ground (arith, bit_xor-lt (crc / 2) 0x8408))

pub crc16-lt :
    (crc : ℕ) (bs : List ℕ) → crc < 2 ^ 16 → All (λ b. b < 256) bs → crc16 crc bs < 2 ^ 16
unfolding crc16 crc16_byte
crc16-lt crc [] h small = h
crc16-lt crc (b ∷ bs) h small =
    crc16-lt (crc16_byte crc b) bs
      (crc16_loop-lt 8 (bit_xor crc b) (bit_xor-lt crc b h (omega (arith, small.0)))) small.1

crc16-append : (crc : ℕ) (xs ys : List ℕ) → crc16 crc (xs ++ ys) ≡ crc16 (crc16 crc xs) ys
unfolding crc16
crc16-append crc [] ys = refl
crc16-append crc (x ∷ xs) ys = crc16-append (crc16_byte crc x) xs ys

-- The check accepts every text of bytes with the check bytes that a sender appends to it.
pub hdlc_check_crc-fcs :
    (bytes : List ℕ)
    → All (λ b. b < 256) bytes
    → hdlc_check_crc (bytes ++ fcs_of (crc16 0xffff bytes)) ≡ true
unfolding hdlc_check_crc fcs_of crc16
hdlc_check_crc-fcs bytes small = (==_iff _ 0xf0b8).1 (
    crc16-append 0xffff bytes (fcs_of (crc16 0xffff bytes))
    ∙ residue_lem (crc16 0xffff bytes) (crc16-lt 0xffff bytes (omega arith) small))
