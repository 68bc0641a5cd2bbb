-- ===== src/Dsc/Words.antt =====
-- The words of plugins/dsc_decoder.c: seven bits of data and three that count the zeros among these.
-- The bits are those of the packed bytes, in order; the decoder reads no bit past them.
use multi_radio.Common.{
  ℕ, zero, suc, ◌+◌, ◌-◌, ◌*◌, ◌%◌, ◌^◌, Bool, false, List, [], ◌∷◌, ◌==◌, if◌then◌else◌, get_or,
}

abbrev pub get_bit : List Bool → ℕ → ℕ
get_bit bits idx = if get_or bits idx false then 1 else 0

-- `v = (uint8_t)((v << 1u) | bit)` for as many bits as are left, the first of them bit `i`.
unfoldable pub shift_loop : (ℕ → ℕ) → ℕ → ℕ → ℕ → ℕ
shift_loop bit zero i v = v
shift_loop bit (suc n) i v = shift_loop bit n (i + 1) ((v * 2 + bit i) % 2 ^ 8)

unfoldable pub decode_symbol7 : List Bool → ℕ → Bool → ℕ
unfolding shift_loop
decode_symbol7 bits bit0 reverse_data_bits =
    shift_loop (λ i. get_bit bits (if reverse_data_bits then bit0 + (6 - i) else bit0 + i)) 7 0 0

unfoldable pub zero_loop : (ℕ → ℕ) → ℕ → ℕ → ℕ → ℕ
zero_loop bit zero i z = z
zero_loop bit (suc n) i z = zero_loop bit n (i + 1) (if bit i == 0 then (z + 1) % 2 ^ 8 else z)

unfoldable pub zero_count_check : List Bool → ℕ → ℕ
unfolding zero_loop
zero_count_check bits bit0 = zero_loop (λ i. get_bit bits (bit0 + i)) 7 0 0

unfoldable pub parse_check_bits : List Bool → ℕ → ℕ
unfolding shift_loop
parse_check_bits bits bit0 = shift_loop (λ i. get_bit bits (bit0 + 7 + i)) 3 0 0

-- `z == c`.
unfoldable pub word_ok : List Bool → ℕ → Bool
word_ok bits bit0 = zero_count_check bits bit0 == parse_check_bits bits bit0

-- What the loop over the words makes: the symbols of the valid ones, in order, and how many are and
-- are not valid.
pub record Collected : Type 0 where
  pub symbols : List ℕ
  pub words_valid : ℕ
  pub words_invalid : ℕ

unfoldable pub collect_word : List Bool → Bool → ℕ → Collected → Collected
collect_word bits reverse bit0 rest =
    if word_ok bits bit0
    then record rest {
      symbols = decode_symbol7 bits bit0 reverse ∷ rest.symbols;
      words_valid = rest.words_valid + 1;
    }
    else record rest { words_invalid = rest.words_invalid + 1 }

-- The loop over as many words as are left, the first of them at `bit0`.
unfoldable pub collect : List Bool → Bool → ℕ → ℕ → Collected
collect bits reverse zero bit0 = record { symbols = []; words_valid = 0; words_invalid = 0 }
collect bits reverse (suc n) bit0 =
    collect_word bits reverse bit0 (collect bits reverse n (bit0 + 10))
