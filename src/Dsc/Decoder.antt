-- ===== src/Dsc/Decoder.antt =====
-- The plugin of plugins/dsc_decoder.c: its context, its parameters and `mr_plugin_process_bits`.
-- `atoi` is a parameter. The buffer of the JSON text is taken to be long enough, which it is for
-- the names of the sources in the plugins.
use multi_radio.Common.{
  ℕ, zero, suc, sym, Bool, true, false, ◌&&◌, Option, none, some, List, [], ltb, leb, ◌==◌,
  if◌then◌else◌, Bytes, codes, same,
}
use multi_radio.Ais.Bits.{ℤ, pos, negsuc}
use multi_radio.Dsc.Call.{symbols_to_csv, mmsi_from_symbol_pairs, symbol_at}

pub record DscDecCtx : Type 0 where
  pub reverse_data_bits : Bool
  pub min_words : ℕ
  pub min_valid_ratio_pct : ℕ
  pub drop_duplicates : Bool
  pub require_eos : Bool
  pub require_format_repeat_for_alerting : Bool
  pub min_eos_tail_repeats : ℕ
  pub min_emit_interval_ms : ℕ
  pub metric_blocks : ℕ
  pub metric_candidates : ℕ
  pub metric_duplicates : ℕ
  pub metric_filtered : ℕ
  pub metric_emitted : ℕ
  pub metric_frames_parsed : ℕ
  pub metric_ecc_ok : ℕ
  pub metric_ecc_fail : ℕ
  pub last_payload_hex : Bytes
  pub last_unix_ms : ℕ

-- `mr_plugin_create`.
abbrev pub create : DscDecCtx
create = record {
  reverse_data_bits = true;
  min_words = 6;
  min_valid_ratio_pct = 60;
  drop_duplicates = true;
  require_eos = true;
  require_format_repeat_for_alerting = true;
  min_eos_tail_repeats = 2;
  min_emit_interval_ms = 400;
  metric_blocks = 0;
  metric_candidates = 0;
  metric_duplicates = 0;
  metric_filtered = 0;
  metric_emitted = 0;
  metric_frames_parsed = 0;
  metric_ecc_ok = 0;
  metric_ecc_fail = 0;
  last_payload_hex = [];
  last_unix_ms = 0;
}

abbrev pub is_nonzero : ℤ → Bool
is_nonzero (pos zero) = false
is_nonzero _ = true

-- The value of a number from 0 on.
abbrev pub from_zero : ℤ → Option ℕ
from_zero (pos n) = some n
from_zero (negsuc n) = none

abbrev pub or_kept : Option ℕ → ℕ → ℕ
or_kept none old = old
or_kept (some n) old = n

-- A value that passes a test.
abbrev pub when : (ℕ → Bool) → Option ℕ → Option ℕ
when p none = none
when p (some n) = if p n then some n else none

-- `mr_plugin_set_param` with the value of `atoi`: the context and whether the key is known.
unfoldable pub set_param : (Bytes → ℤ) → DscDecCtx → Bytes → Bytes → DscDecCtx × Bool
set_param atoi ctx key value =
    let v = atoi value in
    if same key (codes "reverse_data_bits")
    then (record ctx { reverse_data_bits = is_nonzero v }, true)
    else if same key (codes "dsc_min_words")
    then (
      record ctx { min_words = or_kept (when (λ n. ltb 0 n) (from_zero v)) ctx.min_words },
      true,
    )
    else if same key (codes "dsc_min_valid_ratio_pct")
    then (
      record ctx {
        min_valid_ratio_pct =
            or_kept (when (λ n. ltb 0 n && leb n 100) (from_zero v)) ctx.min_valid_ratio_pct;
      },
      true,
    )
    else if same key (codes "dsc_drop_duplicates")
    then (record ctx { drop_duplicates = is_nonzero v }, true)
    else if same key (codes "dsc_require_eos")
    then (record ctx { require_eos = is_nonzero v }, true)
    else if same key (codes "dsc_require_format_repeat")
    then (record ctx { require_format_repeat_for_alerting = is_nonzero v }, true)
    else if same key (codes "dsc_min_eos_repeats")
    then (
      record ctx { min_eos_tail_repeats = or_kept (from_zero v) ctx.min_eos_tail_repeats },
      true,
    )
    else if same key (codes "dsc_min_emit_interval_ms")
    then (
      record ctx { min_emit_interval_ms = or_kept (from_zero v) ctx.min_emit_interval_ms },
      true,
    )
    else (ctx, false)

abbrev pub text_or_empty : Option Bytes → Bytes
text_or_empty none = []
text_or_empty (some s) = s

abbrev pub csv_or_empty : Option (List ℕ) → Bytes
unfolding symbols_to_csv
csv_or_empty none = []
csv_or_empty (some symbols) = symbols_to_csv symbols 64

abbrev pub mmsi_or_empty : Option (List ℕ) → Bytes
unfolding mmsi_from_symbol_pairs
mmsi_or_empty none = []
mmsi_or_empty (some symbols) = text_or_empty (mmsi_from_symbol_pairs symbols)

-- A symbol that is 255 while it is unknown is shown as 0, and its label as unknown.
abbrev pub shown : ℕ → ℕ
shown sym = if leb sym 127 then sym else 0

abbrev pub label_if_known : (ℕ → Bytes) → ℕ → Bytes
label_if_known label sym = if leb sym 127 then label sym else codes "unknown"

abbrev pub zero_if_none : Option ℕ → ℕ
zero_if_none none = 0
zero_if_none (some sym) = sym

abbrev pub label_or_unknown : (ℕ → Bytes) → Option ℕ → Bytes
label_or_unknown label none = codes "unknown"
label_or_unknown label (some sym) = label sym

abbrev pub eos_idx : Option (ℕ × ℕ) → Option ℕ
eos_idx none = none
eos_idx (some (i, v)) = some i

abbrev pub eos_sym : Option (ℕ × ℕ) → ℕ
eos_sym none = 255
eos_sym (some (i, v)) = v

-- The symbol in front of the end of the sequence, and its index, if the end is not the first symbol.
abbrev pub ecc_at : Option (ℕ × ℕ) → Option ℕ
ecc_at none = none
ecc_at (some (zero, v)) = none
ecc_at (some (suc i, v)) = some i

abbrev pub ecc_sym : List ℕ → Option ℕ → ℕ
ecc_sym symbols none = 255
ecc_sym symbols (some i) = symbol_at symbols i

abbrev pub message_class : ℕ → Bytes
message_class fmt_sym =
    if fmt_sym == 112
    then codes "distress"
    else if fmt_sym == 116
    then codes "all_ships"
    else if fmt_sym == 120
    then codes "individual"
    else codes "selective_other"

abbrev pub parse_status : Bool → Bool → Bytes
parse_status has_eos repeated =
    if has_eos && repeated then codes "ok" else if has_eos then codes "partial" else codes "weak"

abbrev pub digit_flag : Bool → Bytes
digit_flag b = if b then codes "1" else codes "0"
