-- ===== src/Dsc/WordLaws.antt =====
-- The words of plugins/dsc_decoder.c as a sender makes them, wherever they stand.
use multi_radio.Common.{
  ℕ, zero, suc, ◌+◌, ◌-◌, ◌<◌, ◌≡◌, refl, sym, ap, ap₂, ◌∙◌, Bool, true, false, ◌&&◌, List, [], ◌∷◌,
  ◌++◌, append_assoc, arith, ◌==◌, ==_iff, and_true, length, All, length-append,
}
use multi_radio.Ais.Crc.{all_below, all_below_at}
use multi_radio.Dsc.Words.{
  shift_loop, decode_symbol7, zero_loop, zero_count_check, parse_check_bits, word_ok, collect_word,
  collect, get_bit, Collected,
}
use multi_radio.Dsc.Sender.{word_bits, call_bits}

get_bit-append :
    (pre xs : List Bool) (i k : ℕ) → k ≡ length pre + i → get_bit (pre ++ xs) k ≡ get_bit xs i
get_bit-append [] xs i k e = ap (get_bit xs) (omega (arith, e))
get_bit-append (b ∷ pre) xs i zero e = absurd (omega (arith, e))
get_bit-append (b ∷ pre) xs i (suc k) e = get_bit-append pre xs i k (omega (arith, e))

decode_symbol7-append :
    (pre xs : List Bool) (reverse : Bool)
    → decode_symbol7 (pre ++ xs) (length pre) reverse ≡ decode_symbol7 xs 0 reverse
unfolding decode_symbol7
decode_symbol7-append pre xs true =
    ap (λ bit. shift_loop bit 7 0 0)
      (λ j i. get_bit-append pre xs (0 + (6 - i)) (length pre + (6 - i)) (omega arith) j)
decode_symbol7-append pre xs false =
    ap (λ bit. shift_loop bit 7 0 0)
      (λ j i. get_bit-append pre xs (0 + i) (length pre + i) (omega arith) j)

zero_count_check-append :
    (pre xs : List Bool) → zero_count_check (pre ++ xs) (length pre) ≡ zero_count_check xs 0
unfolding zero_count_check
zero_count_check-append pre xs =
    ap (λ bit. zero_loop bit 7 0 0)
      (λ j i. get_bit-append pre xs (0 + i) (length pre + i) (omega arith) j)

parse_check_bits-append :
    (pre xs : List Bool) → parse_check_bits (pre ++ xs) (length pre) ≡ parse_check_bits xs 0
unfolding parse_check_bits
parse_check_bits-append pre xs =
    ap (λ bit. shift_loop bit 3 0 0)
      (λ j i. get_bit-append pre xs (0 + 7 + i) (length pre + 7 + i) (omega arith) j)

word_ok-append : (pre xs : List Bool) → word_ok (pre ++ xs) (length pre) ≡ word_ok xs 0
unfolding word_ok
word_ok-append pre xs =
    ap₂ (λ z c. z == c) (zero_count_check-append pre xs) (parse_check_bits-append pre xs)

abbrev reads_back : Bool → ℕ → Bool
reads_back reverse s =
    word_ok (word_bits reverse s) 0 && (decode_symbol7 (word_bits reverse s) 0 reverse == s)

reads_back_table : all_below 128 (reads_back true) && all_below 128 (reads_back false) ≡ true
unfolding word_ok zero_count_check parse_check_bits decode_symbol7 zero_loop shift_loop word_bits
reads_back_table = refl

word_ok-prefix :
    (reverse : Bool) (s : ℕ) (rest : List Bool)
    → word_ok (word_bits reverse s ++ rest) 0 ≡ word_ok (word_bits reverse s) 0
unfolding word_ok zero_count_check parse_check_bits decode_symbol7 zero_loop shift_loop word_bits
word_ok-prefix true s rest = refl
word_ok-prefix false s rest = refl

decode_symbol7-prefix :
    (reverse : Bool) (s : ℕ) (rest : List Bool)
    → decode_symbol7 (word_bits reverse s ++ rest) 0 reverse
      ≡ decode_symbol7 (word_bits reverse s) 0 reverse
unfolding decode_symbol7 shift_loop word_bits
decode_symbol7-prefix true s rest = refl
decode_symbol7-prefix false s rest = refl

reads_back_lem : (reverse : Bool) (s : ℕ) → s < 128 → reads_back reverse s ≡ true
reads_back_lem true s h = all_below_at 128 (reads_back true) s (and_true _ _ reads_back_table).0 h
reads_back_lem false s h = all_below_at 128 (reads_back false) s (and_true _ _ reads_back_table).1 h

pub word_ok-word_bits :
    (pre rest : List Bool) (reverse : Bool) (s : ℕ)
    → s < 128
    → word_ok (pre ++ (word_bits reverse s ++ rest)) (length pre) ≡ true
word_ok-word_bits pre rest reverse s h =
    word_ok-append pre (word_bits reverse s ++ rest)
    ∙ word_ok-prefix reverse s rest
    ∙ (and_true _ _ (reads_back_lem reverse s h)).0

pub decode_symbol7-word_bits :
    (pre rest : List Bool) (reverse : Bool) (s : ℕ)
    → s < 128
    → decode_symbol7 (pre ++ (word_bits reverse s ++ rest)) (length pre) reverse ≡ s
decode_symbol7-word_bits pre rest reverse s h =
    decode_symbol7-append pre (word_bits reverse s ++ rest) reverse
    ∙ decode_symbol7-prefix reverse s rest
    ∙ (==_iff _ s).0 (and_true _ _ (reads_back_lem reverse s h)).1

length-word_bits : (reverse : Bool) (s : ℕ) → length (word_bits reverse s) ≡ 10
unfolding word_bits
length-word_bits true s = refl
length-word_bits false s = refl

-- What is read of words that are all valid.
abbrev pub all_read : List ℕ → Collected
all_read symbols = record { symbols = symbols; words_valid = length symbols; words_invalid = 0 }

collect-next :
    (bits : List Bool) (reverse : Bool) (n bit0 s : ℕ) (symbols : List ℕ)
    → word_ok bits bit0 ≡ true
    → decode_symbol7 bits bit0 reverse ≡ s
    → collect bits reverse n (bit0 + 10) ≡ all_read symbols
    → collect bits reverse (suc n) bit0 ≡ all_read (s ∷ symbols)
unfolding collect collect_word
collect-next bits reverse n bit0 s symbols ok value behind =
    let longer : length symbols + 1 ≡ suc (length symbols) = omega arith in
    rw (ok, value, behind)
      (λ i. record { symbols = s ∷ symbols; words_valid = longer i; words_invalid = 0 })

-- Words of symbols below 128 that are sent one after the other, wherever they begin and whatever
-- stands before and behind them, are all valid and are read as their symbols, in order.
pub collect-call_bits :
    (symbols : List ℕ) (pre rest : List Bool) (reverse : Bool)
    → All (λ s. s < 128) symbols
    → collect (pre ++ (call_bits reverse symbols ++ rest)) reverse (length symbols) (length pre)
      ≡ all_read symbols
unfolding collect call_bits
collect-call_bits [] pre rest reverse h = refl
collect-call_bits (s ∷ symbols) pre rest reverse h =
    let word = word_bits reverse s in
    let later = call_bits reverse symbols ++ rest in
    let end : length (pre ++ word) ≡ length pre + 10 =
      omega (arith, length-append pre word, length-word_bits reverse s) in
    let behind : collect (pre ++ (word ++ later)) reverse (length symbols) (length pre + 10)
        ≡ all_read symbols =
      ap₂ (λ bits bit0. collect bits reverse (length symbols) bit0)
        (sym (append_assoc pre word later)) (sym end)
      ∙ collect-call_bits symbols (pre ++ word) rest reverse h.1 in
    ap (λ bits. collect (pre ++ bits) reverse (suc (length symbols)) (length pre))
      (append_assoc word (call_bits reverse symbols) rest)
    ∙ collect-next (pre ++ (word ++ later)) reverse (length symbols) (length pre) s symbols
        (word_ok-word_bits pre later reverse s h.0)
        (decode_symbol7-word_bits pre later reverse s h.0) behind
