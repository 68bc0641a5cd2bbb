-- ===== src/Dsc/Collected.antt =====
-- What the loop over the words in plugins/dsc_decoder.c keeps, whatever the bits are.
use multi_radio.Common.{
  ℕ, zero, suc, ◌+◌, ◌-◌, ◌≤◌, ◌<◌, ◌≡◌, refl, ap, keep, map, [], ◌∷◌, ◌==◌, inl, inr, Bool, List,
  arith, if◌then◌else◌, Bool-cases, length, All,
}
use multi_radio.Dsc.Words.{
  zero_count_check, parse_check_bits, shift_loop, decode_symbol7, word_ok, collect_word, collect,
  get_bit,
}
use multi_radio.Dsc.Search.{count_valid}

pub count_valid-collect :
    (bits : List Bool) (reverse : Bool) (n bit0 : ℕ)
    → count_valid bits n bit0 ≡ (collect bits reverse n bit0).words_valid
unfolding count_valid collect collect_word
count_valid-collect bits reverse zero bit0 = refl
count_valid-collect bits reverse (suc n) bit0 =
    ground (arith, count_valid-collect bits reverse n (bit0 + 10))

get_bit-le : (bits : List Bool) (i : ℕ) → get_bit bits i ≤ 1
get_bit-le bits i = ground arith

shift_loop-lt : (bit : ℕ → ℕ) → ((j : ℕ) → bit j ≤ 1) → shift_loop bit 7 0 0 < 128
unfolding shift_loop
shift_loop-lt bit small =
    omega (arith, small 0, small 1, small 2, small 3, small 4, small 5, small 6)

decode_symbol7-lt :
    (bits : List Bool) (bit0 : ℕ) (reverse : Bool) → decode_symbol7 bits bit0 reverse < 128
unfolding decode_symbol7
decode_symbol7-lt bits bit0 reverse =
    shift_loop-lt (λ i. get_bit bits (if reverse then bit0 + (6 - i) else bit0 + i))
      (λ i. get_bit-le bits (if reverse then bit0 + (6 - i) else bit0 + i))

-- Where words of ten bits begin, the first of them at `bit0`.
abbrev pub word_starts : ℕ → ℕ → List ℕ
word_starts zero bit0 = []
word_starts (suc n) bit0 = bit0 ∷ word_starts n (bit0 + 10)

-- Those of the words whose check bits are the number of zeros of their data.
abbrev pub valid_starts : List Bool → ℕ → ℕ → List ℕ
valid_starts bits n bit0 =
    keep (λ i. zero_count_check bits i == parse_check_bits bits i) (word_starts n bit0)

-- What is kept of any words are the symbols of the valid words, in order and each once, where a word is
-- valid if its check bits are the number of zeros of its data; they are numbers of seven bits. The
-- two counters are the numbers of the valid words and of the others.
pub collect-IsSymbols :
    (bits : List Bool) (reverse : Bool) (n bit0 : ℕ)
    → let got = collect bits reverse n bit0 in
      (got.symbols ≡ map (λ i. decode_symbol7 bits i reverse) (valid_starts bits n bit0))
      × All (λ s. s < 128) got.symbols
      × (got.words_valid ≡ length (valid_starts bits n bit0))
      × (got.words_valid + got.words_invalid ≡ n)
unfolding collect collect_word word_ok
collect-IsSymbols bits reverse zero bit0 = (refl, tt, refl, refl)
collect-IsSymbols bits reverse (suc n) bit0 =
    let (symbols, seven, each, once) = collect-IsSymbols bits reverse n (bit0 + 10) in
    elim (Bool-cases (zero_count_check bits bit0 == parse_check_bits bits bit0)) [
      | inl ok ↦ rw (ok) (
        ap (λ rest. decode_symbol7 bits bit0 reverse ∷ rest) symbols,
        (decode_symbol7-lt bits bit0 reverse, seven),
        omega (arith, each),
        omega (arith, once),
      )
      | inr bad ↦ rw (bad) (symbols, seven, each, omega (arith, once))
    ]
