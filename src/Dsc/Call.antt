-- ===== src/Dsc/Call.antt =====
-- The parts that `mr_plugin_process_bits` of plugins/dsc_decoder.c finds in a call of valid symbols,
-- and their texts.
use multi_radio.Common.{
  ℕ, suc, ◌+◌, ◌-◌, Bool, true, false, ◌||◌, Option, none, some, List, [], ◌∷◌, ◌++◌, ltb, leb,
  ◌==◌, if◌then◌else◌, length, get_elem?, get_or, take, drop, any, Bytes,
}
use multi_radio.Ais.Format.{decimal, padded}

unfoldable pub csv_loop : Bool → List ℕ → Bytes
unfolding decimal
csv_loop first [] = []
csv_loop first (s ∷ symbols) =
    (if first then [] else b',' ∷ []) ++ (decimal s ++ csv_loop false symbols)

-- Each `strncat` takes what still fits in front of the NUL.
unfoldable pub symbols_to_csv : List ℕ → ℕ → Bytes
unfolding csv_loop
symbols_to_csv symbols out_cap = take (out_cap - 1) (csv_loop true symbols)

-- "%02u" of five numbers below 100; `none` where the function returns 0.
unfoldable pub mmsi_from_symbol_pairs : List ℕ → Option Bytes
unfolding padded
mmsi_from_symbol_pairs (a ∷ b ∷ c ∷ d ∷ e ∷ _) =
    if any (λ s. ltb 99 s) (a ∷ b ∷ c ∷ d ∷ e ∷ [])
    then none
    else some (padded 2 a ++ (padded 2 b ++ (padded 2 c ++ (padded 2 d ++ padded 2 e))))
mmsi_from_symbol_pairs _ = none

unfoldable pub parse_utc_hhmm : List ℕ → Option Bytes
unfolding padded
parse_utc_hhmm (h ∷ m ∷ _) =
    if ltb 99 h || ltb 99 m then none else some (padded 2 h ++ (b':' ∷ padded 2 m))
parse_utc_hhmm _ = none

abbrev pub is_eos : ℕ → Bool
is_eos v = v == 117 || (v == 122 || v == 127)

-- The index and the symbol found behind the first symbol, or the first symbol.
unfoldable pub later_eos : ℕ → Option (ℕ × ℕ) → Option (ℕ × ℕ)
later_eos s (some (i, v)) = some (suc i, v)
later_eos s none = if is_eos s then some (0, s) else none

-- The search from the end for a symbol that ends a sequence: its index and itself.
unfoldable pub last_eos : List ℕ → Option (ℕ × ℕ)
unfolding later_eos
last_eos [] = none
last_eos (s ∷ symbols) = later_eos s (last_eos symbols)

-- How many symbols in a row, from the first, are the same as a given one.
unfoldable pub repeats : ℕ → List ℕ → ℕ
repeats v [] = 0
repeats v (s ∷ symbols) = let rest = repeats v symbols in if s == v then rest + 1 else 0

unfoldable pub eos_tail_repeats : List ℕ → Option (ℕ × ℕ) → ℕ
unfolding repeats
eos_tail_repeats symbols none = 0
eos_tail_repeats symbols (some (i, v)) = repeats v (drop i symbols)

unfoldable pub has_format_repeat : List ℕ → Bool
has_format_repeat (a ∷ b ∷ _) = a == b
has_format_repeat _ = false

-- What follows the format: texts as they are printed, where `none` is a `has_` that is 0, symbols
-- that are 255 while they are unknown, and the index of the message.
pub record CallParts : Type 0 where
  pub address : Option (List ℕ)
  pub selfid : Option (List ℕ)
  pub cat_sym : ℕ
  pub tc1 : Option ℕ
  pub tc2 : Option ℕ
  pub distress_nature_sym : ℕ
  pub distress_pos : Option (List ℕ)
  pub distress_utc : Option Bytes
  pub msg_start_index : Option ℕ

-- The five symbols at an index, if there are as many.
abbrev pub five_at : List ℕ → ℕ → Option (List ℕ)
five_at symbols i = if leb (i + 5) (length symbols) then some (take 5 (drop i symbols)) else none

-- `symbols[i]`, or 255 where the length excludes it.
abbrev pub symbol_at : List ℕ → ℕ → ℕ
symbol_at symbols i = get_or symbols i 255

abbrev pub after_distress : List ℕ → ℕ → CallParts
unfolding parse_utc_hhmm
after_distress symbols addr_start = record {
  address = none;
  selfid = five_at symbols addr_start;
  cat_sym = 255;
  tc1 = get_elem? symbols (addr_start + 13);
  tc2 = none;
  distress_nature_sym = symbol_at symbols (addr_start + 5);
  distress_pos = five_at symbols (addr_start + 6);
  distress_utc =
      if leb (addr_start + 13) (length symbols)
      then parse_utc_hhmm (drop (addr_start + 11) symbols)
      else none;
  msg_start_index = if ltb (addr_start + 13) (length symbols) then some (addr_start + 14) else none;
}

abbrev pub after_address : List ℕ → ℕ → CallParts
after_address symbols addr_start = record {
  address = five_at symbols addr_start;
  selfid = five_at symbols (addr_start + 6);
  cat_sym = symbol_at symbols (addr_start + 5);
  tc1 = get_elem? symbols (addr_start + 11);
  tc2 = get_elem? symbols (addr_start + 12);
  distress_nature_sym = 255;
  distress_pos = none;
  distress_utc = none;
  msg_start_index =
      if ltb (addr_start + 12) (length symbols)
      then some (addr_start + 13)
      else if ltb (addr_start + 11) (length symbols)
      then some (addr_start + 12)
      else none;
}

unfoldable pub call_parts : List ℕ → CallParts
unfolding has_format_repeat parse_utc_hhmm
call_parts symbols =
    let addr_start = if has_format_repeat symbols then 2 else 1 in
    if get_or symbols 0 0 == 112
    then after_distress symbols addr_start
    else after_address symbols addr_start

-- `msg1_csv`: the symbols from the start of the message up to the end of the sequence.
unfoldable pub message_csv : List ℕ → Option ℕ → Option (ℕ × ℕ) → Bytes
unfolding symbols_to_csv
message_csv symbols (some start) (some (eos_idx, v)) =
    if ltb start eos_idx
    then symbols_to_csv (take (eos_idx - start) (drop start symbols)) 128
    else []
message_csv symbols _ _ = []
