-- ===== src/Ais/BitsLaws.antt =====
-- The bits that `ais_bits` of plugins/ais_decoder.c reads are those of the field it names.
use Prim.Native.Nat.{bit_or, bit_or-bitwise, digits}
use multi_radio.Common.{
  ℕ, zero, suc, ◌+◌, ◌*◌, ◌/◌, ◌%◌, ◌^◌, ◌≤◌, ◌<◌, max, ◌≡◌, refl, sym, ap, ap₂, ◌∙◌, Bool, true,
  false, List, [], ◌∷◌, ◌++◌, append_assoc, arith, ltb, ◌==◌, if◌then◌else◌, length, get_or,
  replicate, length-append,
}
use multi_radio.Ais.Hdlc.{bits_of}
use multi_radio.Ais.Nrzi.{pack}
use multi_radio.Ais.Packing.{bits_of-pack}
use multi_radio.Ais.Bits.{bit_set, bits_loop, ais_bits}

abbrev bit_value : Bool → ℕ
bit_value true = 1
bit_value false = 0

-- The number that bits make behind a number, the highest first.
unfoldable value : ℕ → List Bool → ℕ
value acc [] = acc
value acc (b ∷ bs) = value (2 * acc + bit_value b) bs

-- The bits of a field, the highest first.
unfoldable pub field_bits : ℕ → ℕ → List Bool
field_bits zero v = []
field_bits (suc n) v = field_bits n (v / 2) ++ ((v % 2 == 1) ∷ [])

value-append : (acc : ℕ) (xs ys : List Bool) → value acc (xs ++ ys) ≡ value (value acc xs) ys
unfolding value
value-append acc [] ys = refl
value-append acc (x ∷ xs) ys = value-append (2 * acc + bit_value x) xs ys

bit_value-mod : (v : ℕ) → bit_value (v % 2 == 1) ≡ v % 2
bit_value-mod v = ground arith

value-field_bits : (n v : ℕ) → v < 2 ^ n → value 0 (field_bits n v) ≡ v
unfolding value field_bits
value-field_bits zero v h = omega arith
value-field_bits (suc n) v h =
    let rest = value-field_bits n (v / 2) (omega arith) in
    value-append 0 (field_bits n (v / 2)) ((v % 2 == 1) ∷ []) ∙ omega (arith, rest, bit_value-mod v)

pub length-field_bits : (n v : ℕ) → length (field_bits n v) ≡ n
unfolding field_bits
length-field_bits zero v = refl
length-field_bits (suc n) v =
    omega
      (arith, length-append (field_bits n (v / 2)) ((v % 2 == 1) ∷ []), length-field_bits n (v / 2))

unfoldable pub shifted : ℕ → ℕ → ℕ
shifted zero m = m
shifted (suc n) m = 2 * shifted n m

shifted-double : (n m : ℕ) → shifted (suc n) m ≡ shifted n (2 * m)
unfolding shifted
shifted-double zero m = refl
shifted-double (suc n) m = ap (λ x. 2 * x) (shifted-double n m)

shifted-one : (n m : ℕ) → shifted n m + 2 ^ n ≡ shifted n (m + 1)
unfolding shifted
shifted-one zero m = refl
shifted-one (suc n) m = omega (arith, shifted-one n m)

shifted-zero : (n : ℕ) → shifted n 0 ≡ 0
unfolding shifted
shifted-zero zero = refl
shifted-zero (suc n) = omega (arith, shifted-zero n)

pub digits-zero : (f a : ℕ) → a ≤ f → digits (λ b. b) max f a 0 ≡ a
digits-zero zero a h = omega arith
digits-zero (suc f) zero h = refl
digits-zero (suc f) (suc a) h = omega (arith, digits-zero f (suc a / 2) (omega arith))

-- A bit below those that are set.
digits-below :
    (n f a m : ℕ) → a ≡ shifted (suc n) m → a ≤ f → digits (λ b. b) max f a (2 ^ n) ≡ a + 2 ^ n
unfolding shifted
digits-below n zero a m e h = omega arith
digits-below n (suc f) zero m e h = omega arith
digits-below zero (suc f) (suc a) m e h = omega (arith, e, digits-zero f (suc a / 2) (omega arith))
digits-below (suc n) (suc f) (suc a) m e h =
    let half : suc a / 2 ≡ shifted (suc n) m = omega (arith, e) in
    let halved : 2 ^ suc n / 2 ≡ 2 ^ n = omega arith in
    let rest : digits (λ b. b) max f (suc a / 2) (2 ^ suc n / 2) ≡ suc a / 2 + 2 ^ n =
      ap (digits (λ b. b) max f (suc a / 2)) halved
      ∙ digits-below n f (suc a / 2) m half (omega arith) in
    omega (arith, e, rest, halved)

bit_or-below : (n m : ℕ) → bit_or (shifted n (2 * m)) (2 ^ n) ≡ shifted n (2 * m + 1)
bit_or-below n m =
    bit_or-bitwise (shifted n (2 * m)) (2 ^ n)
    ∙ digits-below n (shifted n (2 * m)) (shifted n (2 * m)) m (sym (shifted-double n m))
        (omega arith)
    ∙ shifted-one n (2 * m)

bit_taken :
    (n m : ℕ) (b : Bool)
    → (if b then bit_or (2 * shifted n m) (2 ^ n) else 2 * shifted n m)
      ≡ shifted n (2 * m + bit_value b)
unfolding shifted
bit_taken n m true = ap (λ r. bit_or r (2 ^ n)) (shifted-double n m) ∙ bit_or-below n m
bit_taken n m false = shifted-double n m ∙ ap (shifted n) (omega arith)

first_byte : (n : ℕ) → ltb 0 (suc n) ≡ true
first_byte n = ground arith

ltb-suc : (m n : ℕ) → ltb (suc m) (suc n) ≡ ltb m n
ltb-suc m n = ground arith

bit_set-bits_of : (bytes : List ℕ) (abs : ℕ) → bit_set bytes abs ≡ get_or (bits_of bytes) abs false
unfolding bits_of
bit_set-bits_of [] abs = ground arith
bit_set-bits_of (b ∷ bs) zero = rw (first_byte (length bs)) refl
bit_set-bits_of (b ∷ bs) (suc zero) = rw (first_byte (length bs)) refl
bit_set-bits_of (b ∷ bs) (suc (suc zero)) = rw (first_byte (length bs)) refl
bit_set-bits_of (b ∷ bs) (suc (suc (suc zero))) = rw (first_byte (length bs)) refl
bit_set-bits_of (b ∷ bs) (suc (suc (suc (suc zero)))) = rw (first_byte (length bs)) refl
bit_set-bits_of (b ∷ bs) (suc (suc (suc (suc (suc zero))))) = rw (first_byte (length bs)) refl
bit_set-bits_of (b ∷ bs) (suc (suc (suc (suc (suc (suc zero)))))) = rw (first_byte (length bs)) refl
bit_set-bits_of (b ∷ bs) (suc (suc (suc (suc (suc (suc (suc zero))))))) =
    let whole : b / 1 ≡ b = omega arith in rw (first_byte (length bs), whole) refl
bit_set-bits_of (b ∷ bs) (suc (suc (suc (suc (suc (suc (suc (suc abs)))))))) =
    let byte : (suc (suc (suc (suc (suc (suc (suc (suc abs)))))))) / 8 ≡ suc (abs / 8) =
      omega arith in
    let bit : (suc (suc (suc (suc (suc (suc (suc (suc abs)))))))) % 8 ≡ abs % 8 = omega arith in
    rw (byte, bit, ltb-suc (abs / 8) (length bs)) (bit_set-bits_of bs abs)

get_or-middle :
    (pre : List Bool) (b : Bool) (post : List Bool)
    → get_or (pre ++ (b ∷ post)) (length pre) false ≡ b
get_or-middle [] b post = refl
get_or-middle (x ∷ pre) b post = get_or-middle pre b post

-- A bit behind some bits, wherever the bytes hold them.
bit_set-middle :
    (bytes : List ℕ) (pre : List Bool) (b : Bool) (post : List Bool)
    → bits_of bytes ≡ pre ++ (b ∷ post)
    → bit_set bytes (length pre) ≡ b
bit_set-middle bytes pre b post e =
    bit_set-bits_of bytes (length pre)
    ∙ ap (λ bs. get_or bs (length pre) false) e
    ∙ get_or-middle pre b post

bits_loop-value :
    (bytes : List ℕ) (m : ℕ) (pre bs post : List Bool)
    → bits_of bytes ≡ pre ++ (bs ++ post)
    → bits_loop bytes (length bs) (length pre) (shifted (length bs) m) ≡ value m bs
unfolding bits_loop value shifted
bits_loop-value bytes m pre [] post e = refl
bits_loop-value bytes m pre (b ∷ bs) post e =
    let is_set = bit_set-middle bytes pre b (bs ++ post) e in
    let next =
      bits_loop-value bytes (2 * m + bit_value b) (pre ++ (b ∷ [])) bs post
        (e ∙ sym (append_assoc pre (b ∷ []) (bs ++ post))) in
    ap
      (λ t. bits_loop bytes (length bs) (length pre + 1) (
        if t
        then bit_or (2 * shifted (length bs) m) (2 ^ length bs)
        else 2 * shifted (length bs) m))
      is_set
    ∙ ap₂ (λ at r. bits_loop bytes (length bs) at r) (sym (length-append pre (b ∷ [])))
        (bit_taken (length bs) m b)
    ∙ next

-- The bits between two others of a message are read as the number they make.
pub ais_bits-middle :
    (pre post : List Bool) (len v : ℕ)
    → v < 2 ^ len
    → ais_bits (pack (pre ++ (field_bits len v ++ post))) (length pre) len ≡ v
unfolding ais_bits
ais_bits-middle pre post len v h =
    let (m, few, held) = bits_of-pack (pre ++ (field_bits len v ++ post)) in
    let bits = field_bits len v in
    let fills = replicate m false in
    let split =
      held
      ∙ append_assoc pre (bits ++ post) fills
      ∙ ap (λ bs. pre ++ bs) (append_assoc bits post fills) in
    let read = bits_loop-value (pack (pre ++ (bits ++ post))) 0 pre bits (post ++ fills) split in
    ap₂ (λ n r. bits_loop (pack (pre ++ (bits ++ post))) n (length pre) r)
      (sym (length-field_bits len v)) (sym (shifted-zero (length bits)))
    ∙ read
    ∙ value-field_bits len v h
