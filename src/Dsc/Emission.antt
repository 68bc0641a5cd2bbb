-- ===== src/Dsc/Emission.antt =====
-- What `mr_plugin_process_bits` of plugins/dsc_decoder.c makes of a call that was sent.
use native.Mathlib.Nat.{mul-le-mul_right}
use multi_radio.Dsc.Call.{last_eos}
use multi_radio.Ais.Messages.{Emitted}
use multi_radio.Ais.Hdlc.{bits_of}
use multi_radio.Dsc.Process.{
  process_bits, count_block, is_duplicate, handle_call, handle_words, is_filtered, emitted_call,
}
use multi_radio.Dsc.Decoder.{DscDecCtx, ecc_at}
use multi_radio.Ais.Nrzi.{hex_of}
use multi_radio.Common.{
  ℕ, ◌*◌, ◌≤◌, ◌<◌, ◌≡◌, refl, ap, ap₂, ◌∙◌, ◌≢◌, inl, inr, Bool, false, Option, some, List, [],
  ◌∷◌, ◌++◌, arith, ltb, ◌==◌, ==_iff, Bool-cases, Option-cases, length, All, Bytes, codes,
}
use multi_radio.Plugins.Chain.{raw_bytes}
use multi_radio.Ais.Hex.{ReadsDigits, raw_bytes-hex_of}
use multi_radio.Dsc.Words.{Collected, collect}
use multi_radio.Dsc.Search.{Best, count_valid, search_offset, words_at}
use multi_radio.Dsc.Sender.{call_bits}
use multi_radio.Dsc.Collected.{count_valid-collect}
use multi_radio.Dsc.WordLaws.{all_read, collect-call_bits}
use multi_radio.Dsc.SearchLaws.{total_at, valid_at, search_offset-IsBest}

-- Where a call of symbols stands in bits: from one of the ten offsets, up to the last word of that
-- offset, while fewer words are valid from the other offsets.
pub record IsSent (bits : List Bool) (bit_count : ℕ) (reverse : Bool) (off : ℕ) (symbols : List ℕ)
    : Type 0 where
  pub enough : 20 ≤ bit_count
  pub in_offsets : off < 10
  pub whole : total_at bit_count off ≡ length symbols
  pub before : List Bool
  pub behind : List Bool
  pub at_offset : off ≡ length before
  pub sent : bits ≡ before ++ (call_bits reverse symbols ++ behind)
  pub seven_bits : All (λ s. s < 128) symbols
  pub clearest :
      (other : ℕ) → other < 10 → other ≢ off → valid_at bits bit_count other < length symbols

abbrev pub best_of : ℕ → List ℕ → Best
best_of off symbols = record {
  best_off = off;
  best_valid = length symbols;
  best_total = length symbols;
}

module _ (bits : List Bool) (bit_count : ℕ) (reverse : Bool) (off : ℕ) (symbols : List ℕ)
    (s : IsSent bits bit_count reverse off symbols) where
  collect-sent : collect bits reverse (length symbols) off ≡ all_read symbols
  collect-sent =
      ap₂ (λ b o. collect b reverse (length symbols) o) s.sent s.at_offset
      ∙ collect-call_bits symbols s.before s.behind reverse s.seven_bits

  valid_at-sent : valid_at bits bit_count off ≡ length symbols
  valid_at-sent =
      ap (λ n. count_valid bits n off) s.whole
      ∙ count_valid-collect bits reverse (length symbols) off
      ∙ ap (λ (c : Collected). c.words_valid) collect-sent

  search_offset-off : (search_offset bits bit_count).best_off ≡ off
  search_offset-off =
      let best = search_offset bits bit_count in
      let (found, no_worse) = search_offset-IsBest bits bit_count (omega (arith, s.enough)) in
      elim (Bool-cases (best.best_off == off)) [
        | inl e ↦ (==_iff best.best_off off).0 e
        | inr e ↦
            let other : best.best_off ≢ off = ground (arith, e) in
            let fewer = s.clearest best.best_off found.0 other in
            absurd (ground (arith, no_worse off s.in_offsets, valid_at-sent, fewer, found.2))
      ]

  pub search_offset-sent : search_offset bits bit_count ≡ best_of off symbols
  search_offset-sent =
      let (found, no_worse) = search_offset-IsBest bits bit_count (omega (arith, s.enough)) in
      let e = search_offset-off in
      let total = found.1 ∙ ap (total_at bit_count) e ∙ s.whole in
      let valid = found.2 ∙ ap (valid_at bits bit_count) e ∙ valid_at-sent in
      λ i. record { best_off = e i; best_valid = valid i; best_total = total i }

  length-sent : 0 < length symbols
  unfolding words_at
  length-sent = ground (arith, s.whole, s.enough, s.in_offsets)

All-bytes : (symbols : List ℕ) → All (λ s. s < 128) symbols → All (λ b. b < 256) symbols
All-bytes [] h = tt
All-bytes (s ∷ symbols) h = (omega (arith, h.0), All-bytes symbols h.1)

product-le : (l r : ℕ) → r ≤ 100 → ltb (l * 100) (r * l) ≡ false
product-le l r h = let below = mul-le-mul_right l h in ground (arith, below)

handle_words-sent :
    (ctx : DscDecCtx) (source : Option Bytes) (off : ℕ) (symbols : List ℕ) (unix_ms : ℕ)
    → 0 < length symbols
    → ctx.min_words ≤ length symbols
    → ctx.min_valid_ratio_pct ≤ 100
    → is_duplicate ctx (hex_of symbols) unix_ms ≡ false
    → handle_words ctx source (best_of off symbols) (all_read symbols) unix_ms
      ≡ handle_call ctx source (best_of off symbols) (all_read symbols) unix_ms
unfolding handle_words
handle_words-sent ctx source off [] unix_ms some_symbol enough ratio fresh =
    absurd (omega (arith, some_symbol))
handle_words-sent ctx source off (s ∷ symbols) unix_ms some_symbol enough ratio fresh =
    let large : ltb (length (s ∷ symbols)) ctx.min_words ≡ false = ground (arith, enough) in
    let clear : ltb (length (s ∷ symbols) * 100) (ctx.min_valid_ratio_pct * length (s ∷ symbols))
        ≡ false =
      product-le (length (s ∷ symbols)) ctx.min_valid_ratio_pct ratio in
    rw (large, clear, fresh) refl

handle_call-sent :
    (ctx : DscDecCtx) (source : Option Bytes) (off : ℕ) (symbols : List ℕ) (unix_ms : ℕ)
    → is_filtered ctx symbols (last_eos symbols) unix_ms ≡ false
    → (e : Emitted) × ((handle_call ctx source (best_of off symbols) (all_read symbols) unix_ms).1
        ≡ some e)
      × (e.signal_type ≡ codes "DSC")
      × (e.payload ≡ hex_of symbols)
unfolding handle_call emitted_call is_filtered
handle_call-sent ctx source off symbols unix_ms kept =
    elim (Option-cases (ecc_at (last_eos symbols))) [
      | inl none_there ↦ rw (none_there, kept) (_, refl, refl, refl)
      | inr (i, there) ↦ rw (there, kept) (_, refl, refl, refl)
    ]

-- A call that was sent in the clearest of the ten offsets, with words enough, is emitted as DSC,
-- once, and the payload that the next stage of the chain reads is the symbols that were sent, if it
-- is no duplicate and no filter drops it.
pub process_bits-sent :
    (ctx : DscDecCtx) (bit_bytes : List ℕ) (bit_count unix_ms off : ℕ) (source : Option Bytes)
    (symbols : List ℕ) (scan_hex : Bytes → Option ℕ)
    → IsSent (bits_of bit_bytes) bit_count ctx.reverse_data_bits off symbols
    → ctx.min_words ≤ length symbols
    → ctx.min_valid_ratio_pct ≤ 100
    → is_duplicate ctx (hex_of symbols) unix_ms ≡ false
    → is_filtered ctx symbols (last_eos symbols) unix_ms ≡ false
    → ReadsDigits scan_hex
    → (e : Emitted) × ((process_bits ctx bit_bytes bit_count unix_ms source).1 ≡ some e)
      × (e.signal_type ≡ codes "DSC")
      × (raw_bytes scan_hex (some e.payload) ≡ some symbols)
unfolding process_bits is_filtered is_duplicate
process_bits-sent ctx bit_bytes bit_count unix_ms off source symbols scan_hex s enough ratio fresh
      kept reads =
    let bits = bits_of bit_bytes in
    let reverse = ctx.reverse_data_bits in
    let counted = count_block ctx in
    let long : ltb bit_count 20 ≡ false = ground (arith, s.enough) in
    let (e, emits, type, payload) = handle_call-sent counted source off symbols unix_ms kept in
    let whole =
      handle_words-sent counted source off symbols unix_ms
        (length-sent bits bit_count reverse off symbols s) enough ratio fresh in
    (
      e,
      rw
          (
            long,
            search_offset-sent bits bit_count reverse off symbols s,
            collect-sent bits bit_count reverse off symbols s,
            whole,
          )
          emits,
      type,
      ap (λ p. raw_bytes scan_hex (some p)) payload
          ∙ raw_bytes-hex_of scan_hex symbols reads (All-bytes symbols s.seven_bits)
              (length-sent bits bit_count reverse off symbols s),
    )
