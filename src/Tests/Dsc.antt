-- ===== src/Tests/Dsc.antt =====
-- The theorems of the DSC decoder at concrete inputs: a call of eight words.
use multi_radio.Common.{
  map, ℕ, ◌+◌, ◌-◌, ◌<◌, ◌≡◌, refl, ◌≢◌, true, ◌||◌, none, some, List, [], ◌∷◌, arith, ltb, ◌==◌,
  length, All, Bytes, codes,
}
use multi_radio.Ais.Bits.{ℤ, pos}
use multi_radio.Ais.Crc.{all_below, all_below_at}
use multi_radio.Ais.Hdlc.{bits_of}
use multi_radio.Ais.Messages.{Emitted}
use multi_radio.Plugins.Chain.{raw_bytes}
use multi_radio.Tests.Ais.{scan_two, scan_two-reads}
use multi_radio.Tests.Data.{whole, two_channels}
use multi_radio.Types.Data.{fixed, nfm, ModeConfig}
use multi_radio.Dsc.Words.{
  decode_symbol7, shift_loop, zero_loop, zero_count_check, parse_check_bits, word_ok, collect,
}
use multi_radio.Dsc.Search.{words_at, count_valid, search_offset}
use multi_radio.Dsc.Sender.{word_bits, call_bits}
use multi_radio.Dsc.Collected.{valid_starts, collect-IsSymbols}
use multi_radio.Dsc.SearchLaws.{total_at, valid_at, IsNoWorse, IsFound, search_offset-IsBest}
use multi_radio.Dsc.Call.{later_eos, last_eos, repeats, eos_tail_repeats, has_format_repeat}
use multi_radio.Dsc.Decoder.{DscDecCtx, create}
use multi_radio.Dsc.Process.{process_bits, is_duplicate, is_filtered, process_all}
use multi_radio.Dsc.Emission.{IsSent, process_bits-sent}
use multi_radio.Dsc.Repeat.{process_bits-again}
use multi_radio.Dsc.Worker.{configure, push_plugin_config-silent}
use multi_radio.Worker.ChainFlags.{
  has_ais_dual, use_nfm_dsc_audio, effective_modulation, use_iq_recorder, use_vdes_asm_sketch,
}
use multi_radio.Worker.PluginConfig.{push_plugin_config}

abbrev call_symbols : List ℕ
call_symbols = 112 ∷ 112 ∷ 26 ∷ 55 ∷ 47 ∷ 25 ∷ 0 ∷ 127 ∷ []

abbrev call_bytes : List ℕ
call_bytes = 15 ∷ 3 ∷ 197 ∷ 147 ∷ 178 ∷ 244 ∷ 166 ∷ 64 ∷ 31 ∷ 248 ∷ []

-- A decoder that asks for one end of a sequence.
abbrev one_end : DscDecCtx
one_end = record create { min_eos_tail_repeats = 1 }

clearer_table :
    all_below 10 (λ other. other == 0 || ltb (valid_at (bits_of call_bytes) 80 other) 8) ≡ true
unfolding bits_of count_valid word_ok words_at zero_count_check parse_check_bits zero_loop
    shift_loop
clearer_table = refl

clearer : (other : ℕ) → other < 10 → other ≢ 0 → valid_at (bits_of call_bytes) 80 other < 8
clearer other h ne =
    let cell =
      all_below_at 10 (λ other. other == 0 || ltb (valid_at (bits_of call_bytes) 80 other) 8) other
        clearer_table h in
    ground (arith, cell, ne)

call-IsSent : IsSent (bits_of call_bytes) 80 true 0 call_symbols
unfolding bits_of call_bits word_bits words_at
call-IsSent = record {
  enough = omega arith;
  in_offsets = omega arith;
  whole = refl;
  before = [];
  behind = [];
  at_offset = refl;
  sent = refl;
  seven_bits = (
    omega arith,
    (
      omega arith,
      (omega arith, (omega arith, (omega arith, (omega arith, (omega arith, (omega arith, tt)))))),
    ),
  );
  clearest = clearer;
}

process_bits-sent_example :
    (e : Emitted) × ((process_bits one_end call_bytes 80 1000 none).1 ≡ some e)
    × (e.signal_type ≡ codes "DSC")
    × (raw_bytes scan_two (some e.payload) ≡ some call_symbols)
unfolding is_duplicate is_filtered last_eos later_eos eos_tail_repeats repeats has_format_repeat
process_bits-sent_example =
    process_bits-sent one_end call_bytes 80 1000 0 none call_symbols scan_two call-IsSent
      (omega arith) (omega arith) refl refl scan_two-reads

emitted_once :
    (e : Emitted) × ((process_bits one_end call_bytes 80 1000 none).1 ≡ some e)
    × (e.signal_type ≡ codes "DSC")
    × (raw_bytes scan_two (some e.payload) ≡ some call_symbols)
unfolding is_duplicate is_filtered last_eos later_eos eos_tail_repeats repeats has_format_repeat
emitted_once =
    process_bits-sent one_end call_bytes 80 1000 0 none call_symbols scan_two call-IsSent
      (omega arith) (omega arith) refl refl scan_two-reads

search_offset-IsBest_example :
    IsFound (bits_of call_bytes) 80 10 (search_offset (bits_of call_bytes) 80)
    × ((off : ℕ)
        → off < 10
        → IsNoWorse
            (search_offset (bits_of call_bytes) 80)
            (valid_at (bits_of call_bytes) 80 off)
            (total_at 80 off))
search_offset-IsBest_example = search_offset-IsBest (bits_of call_bytes) 80 (omega arith)

collect-IsSymbols_example :
    let got = collect (bits_of call_bytes) true 7 3 in
    (got.symbols
      ≡ map
          (λ i. decode_symbol7 (bits_of call_bytes) i true)
          (valid_starts (bits_of call_bytes) 7 3))
    × All (λ s. s < 128) got.symbols
    × (got.words_valid ≡ length (valid_starts (bits_of call_bytes) 7 3))
    × (got.words_valid + got.words_invalid ≡ 7)
collect-IsSymbols_example = collect-IsSymbols (bits_of call_bytes) true 7 3

process_bits-again_example :
    (process_bits (process_bits one_end call_bytes 80 1000 none).0 call_bytes 80 1200 none).1 ≡ none
process_bits-again_example =
    process_bits-again one_end call_bytes 80 1000 1200 none none emitted_once.0 refl emitted_once.1
      (omega arith) (omega arith)

abbrev dsc_config : ModeConfig ℕ
dsc_config = record two_channels {
  fixed_modulation = nfm;
  gmsk_decoder = codes "dsc_decoder";
  scan_list_channels = [];
}

-- `atoi` of one digit.
abbrev digit_value : Bytes → ℤ
digit_value [] = pos 0
digit_value (c ∷ _) = pos (c - 48)

push_plugin_config-silent_example :
    (process_all (configure digit_value (push_plugin_config whole fixed dsc_config) create) (
      record { bit_bytes = call_bytes; bit_count = 80; unix_ms = 1000; source_type = none } ∷ [])).1
    ≡ []
unfolding has_ais_dual use_nfm_dsc_audio use_iq_recorder use_vdes_asm_sketch effective_modulation
push_plugin_config-silent_example =
    push_plugin_config-silent whole fixed dsc_config digit_value create
      (record { bit_bytes = call_bytes; bit_count = 80; unix_ms = 1000; source_type = none } ∷ [])
      refl refl refl
