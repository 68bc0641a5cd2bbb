-- ===== src/Dsc/Process.antt =====
-- `mr_plugin_process_bits` of plugins/dsc_decoder.c: what it emits of a call, the filters in front of
-- that and the search for the words. The products of its 32-bit counts stay far below their bound.
use multi_radio.Common.{
  ℕ, ◌+◌, ◌-◌, ◌*◌, ◌%◌, ◌^◌, Bool, not, ◌&&◌, ◌||◌, Option, none, some, List, [], ◌∷◌, ◌++◌, ltb,
  leb, ◌==◌, if◌then◌else◌, is_some, length, is_empty, get_or, Bytes, codes, same,
}
use multi_radio.Ais.Format.{decimal, decimal_or_minus_one}
use multi_radio.Ais.Hdlc.{bits_of}
use multi_radio.Ais.Messages.{Emitted}
use multi_radio.Ais.Nrzi.{hex_of}
use multi_radio.Dsc.Words.{Collected, collect}
use multi_radio.Dsc.Search.{Best, search_offset}
use multi_radio.Dsc.Labels.{
  format_label, category_label, eos_label, distress_nature_label, telecommand1_label,
}
use multi_radio.Dsc.Call.{
  symbols_to_csv, last_eos, eos_tail_repeats, has_format_repeat, CallParts, call_parts, message_csv,
}
use multi_radio.Dsc.Decoder.{
  DscDecCtx, text_or_empty, csv_or_empty, mmsi_or_empty, shown, label_if_known, zero_if_none,
  label_or_unknown, eos_idx, eos_sym, ecc_at, ecc_sym, message_class, parse_status, digit_flag,
}

-- `++` of a 64-bit number.
abbrev pub bump : ℕ → ℕ
bump n = (n + 1) % 2 ^ 64

unfoldable pub kv_of_words : Option Bytes → Best → Collected → List (Bytes × Bytes)
unfolding symbols_to_csv
kv_of_words source best got =
    (codes "source_type", text_or_empty source)
    ∷ (codes "word_offset", decimal best.best_off)
    ∷ (codes "words_total", decimal best.best_total)
    ∷ (codes "words_valid", decimal got.words_valid)
    ∷ (codes "words_invalid", decimal got.words_invalid)
    ∷ (codes "symbols_decoded", decimal (length got.symbols))
    ∷ (codes "symbols_csv", symbols_to_csv got.symbols 1281)
    ∷ []

unfoldable pub kv_of_call : List ℕ → CallParts → Option (ℕ × ℕ) → List (Bytes × Bytes)
unfolding has_format_repeat message_csv eos_tail_repeats
kv_of_call symbols parts eos =
    let fmt_sym = get_or symbols 0 0 in
    let repeated = has_format_repeat symbols in
    (codes "format_specifier", decimal fmt_sym)
    ∷ (codes "format_label", format_label fmt_sym)
    ∷ (codes "message_class", message_class fmt_sym)
    ∷ (codes "parse_status", parse_status (is_some eos) repeated)
    ∷ (codes "has_format_repeat", digit_flag repeated)
    ∷ (codes "address_symbols", csv_or_empty parts.address)
    ∷ (codes "address_mmsi", mmsi_or_empty parts.address)
    ∷ (codes "category_symbol", decimal (shown parts.cat_sym))
    ∷ (codes "category_label", label_if_known category_label parts.cat_sym)
    ∷ (codes "self_id_symbols", csv_or_empty parts.selfid)
    ∷ (codes "self_id_mmsi", mmsi_or_empty parts.selfid)
    ∷ (codes "eos_symbol", decimal (shown (eos_sym eos)))
    ∷ (codes "eos_label", label_if_known eos_label (eos_sym eos))
    ∷ (codes "eos_index", decimal_or_minus_one (eos_idx eos))
    ∷ (codes "eos_tail_repeats", decimal (eos_tail_repeats symbols eos))
    ∷ (codes "ecc_symbol", decimal (shown (ecc_sym symbols (ecc_at eos))))
    ∷ (codes "ecc_index", decimal_or_minus_one (ecc_at eos))
    ∷ (codes "telecommand1_symbol", decimal (zero_if_none parts.tc1))
    ∷ (codes "telecommand1_label", label_or_unknown telecommand1_label parts.tc1)
    ∷ (codes "telecommand2_symbol", decimal (zero_if_none parts.tc2))
    ∷ (codes "message_symbols", message_csv symbols parts.msg_start_index eos)
    ∷ (codes "message_start_index", decimal_or_minus_one parts.msg_start_index)
    ∷ (codes "distress_nature_symbol", decimal (shown parts.distress_nature_sym))
    ∷ (
      codes "distress_nature_label",
      label_if_known distress_nature_label parts.distress_nature_sym,
    )
    ∷ (codes "distress_position_symbols", csv_or_empty parts.distress_pos)
    ∷ (codes "distress_utc", text_or_empty parts.distress_utc)
    ∷ (codes "sequence_status", if is_some eos then codes "ok" else codes "partial")
    ∷ []

unfoldable pub kv_of_metrics : DscDecCtx → List (Bytes × Bytes)
unfolding decimal
kv_of_metrics ctx =
    (codes "reverse_data_bits", digit_flag ctx.reverse_data_bits)
    ∷ (codes "metric_blocks", decimal ctx.metric_blocks)
    ∷ (codes "metric_candidates", decimal ctx.metric_candidates)
    ∷ (codes "metric_duplicates", decimal ctx.metric_duplicates)
    ∷ (codes "metric_filtered", decimal ctx.metric_filtered)
    ∷ (codes "metric_emitted", decimal (bump ctx.metric_emitted))
    ∷ (codes "metric_frames_parsed", decimal (bump ctx.metric_frames_parsed))
    ∷ (codes "metric_ecc_ok", decimal ctx.metric_ecc_ok)
    ∷ (codes "metric_ecc_fail", decimal ctx.metric_ecc_fail)
    ∷ []

unfoldable pub is_duplicate : DscDecCtx → Bytes → ℕ → Bool
is_duplicate ctx payload_hex unix_ms =
    ctx.drop_duplicates
    && (not (is_empty ctx.last_payload_hex)
        && (same payload_hex ctx.last_payload_hex
            && (leb ctx.last_unix_ms unix_ms && ltb (unix_ms - ctx.last_unix_ms) 2500)))

-- The four tests that drop a call.
unfoldable pub is_filtered : DscDecCtx → List ℕ → Option (ℕ × ℕ) → ℕ → Bool
unfolding has_format_repeat eos_tail_repeats
is_filtered ctx symbols eos unix_ms =
    let fmt_sym = get_or symbols 0 0 in
    (ctx.require_eos && not (is_some eos))
    || (ltb (eos_tail_repeats symbols eos) ctx.min_eos_tail_repeats
        || ((ctx.require_format_repeat_for_alerting
              && ((fmt_sym == 112 || fmt_sym == 116) && not (has_format_repeat symbols)))
            || (ltb 0 ctx.min_emit_interval_ms
                && (leb ctx.last_unix_ms unix_ms
                    && ltb (unix_ms - ctx.last_unix_ms) ctx.min_emit_interval_ms))))

abbrev pub count_ecc : DscDecCtx → Option ℕ → DscDecCtx
count_ecc ctx none = record ctx { metric_ecc_fail = bump ctx.metric_ecc_fail }
count_ecc ctx (some i) = record ctx { metric_ecc_ok = bump ctx.metric_ecc_ok }

unfoldable pub emitted_call : DscDecCtx → Option Bytes → Best → Collected → Option (ℕ × ℕ) → Emitted
unfolding kv_of_words kv_of_call call_parts kv_of_metrics
emitted_call ctx source best got eos = record {
  signal_type = codes "DSC";
  payload = hex_of got.symbols;
  kv =
      kv_of_words source best got
      ++ (kv_of_call got.symbols (call_parts got.symbols) eos ++ kv_of_metrics ctx);
}

-- A call that is not a duplicate.
unfoldable pub handle_call :
    DscDecCtx → Option Bytes → Best → Collected → ℕ → DscDecCtx × Option Emitted
unfolding is_filtered last_eos emitted_call
handle_call ctx source best got unix_ms =
    let eos = last_eos got.symbols in
    let counted = count_ecc ctx (ecc_at eos) in
    if is_filtered counted got.symbols eos unix_ms
    then (record counted { metric_filtered = bump counted.metric_filtered }, none)
    else (
      record counted {
        metric_emitted = bump counted.metric_emitted;
        metric_frames_parsed = bump counted.metric_frames_parsed;
        last_payload_hex = hex_of got.symbols;
        last_unix_ms = unix_ms;
      },
      some (emitted_call counted source best got eos),
    )

-- What was found at the offset that the search gave.
unfoldable pub handle_words :
    DscDecCtx → Option Bytes → Best → Collected → ℕ → DscDecCtx × Option Emitted
unfolding is_duplicate handle_call
handle_words ctx source best got unix_ms =
    if ltb best.best_total ctx.min_words
    then (ctx, none)
    else if ltb (best.best_valid * 100) (ctx.min_valid_ratio_pct * best.best_total)
    then (ctx, none)
    else if is_empty got.symbols
    then (ctx, none)
    else if is_duplicate ctx (hex_of got.symbols) unix_ms
    then (record ctx { metric_duplicates = bump ctx.metric_duplicates }, none)
    else handle_call ctx source best got unix_ms

abbrev pub count_block : DscDecCtx → DscDecCtx
count_block ctx = record ctx {
  metric_blocks = bump ctx.metric_blocks;
  metric_candidates = bump ctx.metric_candidates;
}

-- The context after a call and what is emitted.
unfoldable pub process_bits : DscDecCtx → List ℕ → ℕ → ℕ → Option Bytes → DscDecCtx × Option Emitted
unfolding handle_words collect search_offset
process_bits ctx bit_bytes bit_count unix_ms source =
    let bits = bits_of bit_bytes in
    let best = search_offset bits bit_count in
    let counted = count_block ctx in
    if ltb bit_count 20
    then (ctx, none)
    else handle_words counted source best
        (collect bits ctx.reverse_data_bits best.best_total best.best_off) unix_ms

-- One call of `mr_plugin_process_bits`.
pub record BitsCall : Type 0 where
  pub bit_bytes : List ℕ
  pub bit_count : ℕ
  pub unix_ms : ℕ
  pub source_type : Option Bytes

abbrev pub add_emitted : Option Emitted → List Emitted → List Emitted
add_emitted none out = out
add_emitted (some e) out = e ∷ out

-- Calls one after the other: the context after them and what they emit.
unfoldable pub process_all : DscDecCtx → List BitsCall → DscDecCtx × List Emitted
unfolding process_bits
process_all ctx [] = (ctx, [])
process_all ctx (c ∷ calls) =
    let (next, out) = process_bits ctx c.bit_bytes c.bit_count c.unix_ms c.source_type in
    let (end, rest) = process_all next calls in (end, add_emitted out rest)
