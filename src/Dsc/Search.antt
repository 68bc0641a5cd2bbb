-- ===== src/Dsc/Search.antt =====
-- The search of `mr_plugin_process_bits` in plugins/dsc_decoder.c for the offset of the words.
use multi_radio.Common.{
  ℕ, zero, suc, ◌+◌, ◌-◌, ◌/◌, Bool, ◌&&◌, ◌||◌, List, ltb, ◌==◌, if◌then◌else◌,
}
use multi_radio.Dsc.Words.{word_ok}

abbrev pub dsc_dec_max_words : ℕ
dsc_dec_max_words = 256

pub record Best : Type 0 where
  pub best_off : ℕ
  pub best_valid : ℕ
  pub best_total : ℕ

unfoldable pub words_at : ℕ → ℕ → ℕ
words_at bit_count off = if ltb off bit_count then (bit_count - off) / 10 else 0

abbrev pub words_eval : ℕ → ℕ
words_eval words_total =
    if ltb dsc_dec_max_words words_total then dsc_dec_max_words else words_total

-- The valid words among as many as are left, the first of them at `bit0`.
unfoldable pub count_valid : List Bool → ℕ → ℕ → ℕ
count_valid bits zero bit0 = 0
count_valid bits (suc n) bit0 =
    let rest = count_valid bits n (bit0 + 10) in if word_ok bits bit0 then rest + 1 else rest

-- The body of the loop over the offsets.
unfoldable pub try_offset : List Bool → ℕ → ℕ → Best → Best
try_offset bits bit_count off best =
    let total = words_eval (words_at bit_count off) in
    let valid = count_valid bits total off in
    if words_at bit_count off == 0
    then best
    else if ltb best.best_valid valid || (valid == best.best_valid && ltb best.best_total total)
    then record { best_off = off; best_valid = valid; best_total = total }
    else best

-- The loop over the offsets below a number.
unfoldable pub search_below : List Bool → ℕ → ℕ → Best
search_below bits bit_count zero = record { best_off = 0; best_valid = 0; best_total = 0 }
search_below bits bit_count (suc off) =
    try_offset bits bit_count off (search_below bits bit_count off)

unfoldable pub search_offset : List Bool → ℕ → Best
search_offset bits bit_count = search_below bits bit_count 10
