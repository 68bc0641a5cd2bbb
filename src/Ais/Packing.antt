-- ===== src/Ais/Packing.antt =====
-- Bits in bytes and bytes in hexadecimal digits, as plugins/nrzi_decoder.c writes them and
-- `EmitFromPlugin` of backend/src/plugin_host.cpp reads them.
use multi_radio.Common.{
  ℕ, zero, suc, ◌+◌, ◌-◌, ◌*◌, ◌≤◌, ◌<◌, ◌≡◌, refl, ap, ◌∙◌, Bool, true, false, ◌&&◌, List, [], ◌∷◌,
  ◌++◌, arith, and_true, length, take, replicate, length-append, length-replicate, take-append,
}
use multi_radio.Ais.Hdlc.{bits_of}
use multi_radio.Ais.Nrzi.{pack}

abbrev same_bits : List Bool → List Bool → Bool
same_bits [] [] = true
same_bits (true ∷ xs) (true ∷ ys) = same_bits xs ys
same_bits (false ∷ xs) (false ∷ ys) = same_bits xs ys
same_bits _ _ = false

same_bits_eq : (xs ys : List Bool) → same_bits xs ys ≡ true → xs ≡ ys
same_bits_eq [] [] h = refl
same_bits_eq [] (y ∷ ys) h = ground arith
same_bits_eq (true ∷ xs) [] h = ground arith
same_bits_eq (false ∷ xs) [] h = ground arith
same_bits_eq (true ∷ xs) (true ∷ ys) h = ap (λ zs. true ∷ zs) (same_bits_eq xs ys h)
same_bits_eq (true ∷ xs) (false ∷ ys) h = ground arith
same_bits_eq (false ∷ xs) (true ∷ ys) h = ground arith
same_bits_eq (false ∷ xs) (false ∷ ys) h = ap (λ zs. false ∷ zs) (same_bits_eq xs ys h)

-- A test of all lists of bits of a length.
abbrev all_bits : ℕ → (List Bool → Bool) → Bool
all_bits zero p = p []
all_bits (suc n) p = all_bits n (λ bs. p (true ∷ bs)) && all_bits n (λ bs. p (false ∷ bs))

all_bits_at :
    (n : ℕ) (p : List Bool → Bool) (bs : List Bool)
    → all_bits n p ≡ true
    → length bs ≡ n
    → p bs ≡ true
all_bits_at zero p [] h e = h
all_bits_at zero p (b ∷ bs) h e = absurd (omega arith)
all_bits_at (suc n) p [] h e = absurd (omega arith)
all_bits_at (suc n) p (true ∷ bs) h e =
    all_bits_at n (λ bs. p (true ∷ bs)) bs (and_true (all_bits n (λ bs. p (true ∷ bs))) _ h).0
      (omega arith)
all_bits_at (suc n) p (false ∷ bs) h e =
    all_bits_at n (λ bs. p (false ∷ bs)) bs (and_true (all_bits n (λ bs. p (true ∷ bs))) _ h).1
      (omega arith)

-- A last byte that is not full is filled up with zeros.
bits_of-pack_short :
    (n : ℕ) (bs : List Bool)
    → all_bits n (λ bs. same_bits (bits_of (pack bs)) (bs ++ replicate (8 - n) false)) ≡ true
    → length bs ≡ n
    → bits_of (pack bs) ≡ bs ++ replicate (8 - n) false
bits_of-pack_short n bs h e =
    same_bits_eq _ _
      (all_bits_at n (λ bs. same_bits (bits_of (pack bs)) (bs ++ replicate (8 - n) false)) bs h e)

bits_of-pack_byte :
    (a b c d e f g h : Bool) (bits : List Bool)
    → bits_of (pack (a ∷ b ∷ c ∷ d ∷ e ∷ f ∷ g ∷ h ∷ bits))
      ≡ a ∷ b ∷ c ∷ d ∷ e ∷ f ∷ g ∷ h ∷ bits_of (pack bits)
unfolding pack bits_of
bits_of-pack_byte a b c d e f g h bits =
    ap (λ bs. bs ++ bits_of (pack bits))
      (bits_of-pack_short 8 (a ∷ b ∷ c ∷ d ∷ e ∷ f ∷ g ∷ h ∷ []) refl refl)

-- Packed bits come back with fewer than eight zeros behind them.
pub bits_of-pack :
    (bits : List Bool) → (m : ℕ) × (m < 8) × (bits_of (pack bits) ≡ bits ++ replicate m false)
unfolding pack bits_of
bits_of-pack (a ∷ b ∷ c ∷ d ∷ e ∷ f ∷ g ∷ h ∷ bits) =
    let (m, few, filled) = bits_of-pack bits in
    (
      m,
      few,
      bits_of-pack_byte a b c d e f g h bits ∙ ap (λ bs. a ∷ b ∷ c ∷ d ∷ e ∷ f ∷ g ∷ h ∷ bs) filled,
    )
bits_of-pack [] = (0, omega arith, refl)
bits_of-pack (a ∷ []) = (7, omega arith, bits_of-pack_short 1 (a ∷ []) refl refl)
bits_of-pack (a ∷ b ∷ []) = (6, omega arith, bits_of-pack_short 2 (a ∷ b ∷ []) refl refl)
bits_of-pack (a ∷ b ∷ c ∷ []) = (5, omega arith, bits_of-pack_short 3 (a ∷ b ∷ c ∷ []) refl refl)
bits_of-pack (a ∷ b ∷ c ∷ d ∷ []) =
    (4, omega arith, bits_of-pack_short 4 (a ∷ b ∷ c ∷ d ∷ []) refl refl)
bits_of-pack (a ∷ b ∷ c ∷ d ∷ e ∷ []) =
    (3, omega arith, bits_of-pack_short 5 (a ∷ b ∷ c ∷ d ∷ e ∷ []) refl refl)
bits_of-pack (a ∷ b ∷ c ∷ d ∷ e ∷ f ∷ []) =
    (2, omega arith, bits_of-pack_short 6 (a ∷ b ∷ c ∷ d ∷ e ∷ f ∷ []) refl refl)
bits_of-pack (a ∷ b ∷ c ∷ d ∷ e ∷ f ∷ g ∷ []) =
    (1, omega arith, bits_of-pack_short 7 (a ∷ b ∷ c ∷ d ∷ e ∷ f ∷ g ∷ []) refl refl)

pub length-bits_of : (bytes : List ℕ) → length (bits_of bytes) ≡ 8 * length bytes
unfolding bits_of
length-bits_of [] = refl
length-bits_of (b ∷ bs) = omega (arith, length-bits_of bs)

take-all : (n : ℕ) (xs : List Bool) → length xs ≤ n → take n xs ≡ xs
take-all zero [] h = refl
take-all zero (x ∷ xs) h = absurd (omega arith)
take-all (suc n) [] h = refl
take-all (suc n) (x ∷ xs) h = ap (λ zs. x ∷ zs) (take-all n xs (omega arith))

-- The count of the bits tells where they end.
pub take-packed : (bits : List Bool) → take (length bits) (bits_of (pack bits)) ≡ bits
take-packed bits =
    let (m, few, filled) = bits_of-pack bits in
    ap (take (length bits)) filled ∙ take-append bits (replicate m false)

-- A count of whole bytes takes the zeros as well.
pub take-packed_bytes :
    (bits : List Bool)
    → (m : ℕ) × (m < 8)
      × (take (length (pack bits) * 8) (bits_of (pack bits)) ≡ bits ++ replicate m false)
take-packed_bytes bits =
    let (m, few, filled) = bits_of-pack bits in
    (m, few, take-all _ (bits_of (pack bits)) (omega (arith, length-bits_of (pack bits))) ∙ filled)

pub length-pack : (bits : List Bool) → length (pack bits) * 8 < length bits + 8
length-pack bits =
    let (m, few, filled) = bits_of-pack bits in
    omega (
      arith,
      length-bits_of (pack bits),
      few,
      ap length filled,
      length-append bits (replicate m false),
      length-replicate m false,
    )
