-- ===== src/Dsc/Repeat.antt =====
-- Calls that plugins/dsc_decoder.c hears again.
use multi_radio.Ais.Hdlc.{bits_of}
use multi_radio.Dsc.Call.{last_eos}
use multi_radio.Common.{
  ℕ, ◌+◌, ◌-◌, ◌≤◌, ◌<◌, ◌≡◌, refl, sym, ap, subst, ◌∙◌, inl, inr, true, false, Option, none, some,
  List, [], ◌∷◌, arith, ltb, leb, Bool-cases, Option-cases, is_empty, Bytes, same_refl,
}
use multi_radio.Ais.Nrzi.{hex_of}
use multi_radio.Ais.Messages.{Emitted}
use multi_radio.Dsc.Words.{Collected, collect}
use multi_radio.Dsc.Search.{Best, search_offset}
use multi_radio.Dsc.Decoder.{DscDecCtx, ecc_at}
use multi_radio.Dsc.Process.{
  process_bits, is_duplicate, handle_call, handle_words, is_filtered, count_ecc, count_block,
}

-- What an emission leaves behind, and the settings that stay.
abbrev pub IsRemembered : DscDecCtx → DscDecCtx → Bytes → ℕ → Type 0
IsRemembered ctx after payload unix_ms =
    (after.last_payload_hex ≡ payload)
    × (after.last_unix_ms ≡ unix_ms)
    × (after.drop_duplicates ≡ ctx.drop_duplicates)
    × (after.reverse_data_bits ≡ ctx.reverse_data_bits)

handle_call-remembers :
    (ctx : DscDecCtx) (source : Option Bytes) (best : Best) (got : Collected) (unix_ms : ℕ)
    (e : Emitted)
    → (handle_call ctx source best got unix_ms).1 ≡ some e
    → IsRemembered ctx (handle_call ctx source best got unix_ms).0 (hex_of got.symbols) unix_ms
unfolding handle_call
handle_call-remembers ctx source best got unix_ms e emits =
    let eos = last_eos got.symbols in
    elim (Option-cases (ecc_at eos)) [
      | inl no_ecc ↦ elim (Bool-cases (is_filtered (count_ecc ctx none) got.symbols eos unix_ms)) [
        | inl dropped ↦ absurd (ground (arith, no_ecc, dropped, emits))
        | inr kept ↦ rw (no_ecc, kept) (refl, refl, refl, refl)
      ]
      | inr (i, ecc) ↦
          elim (Bool-cases (is_filtered (count_ecc ctx (some i)) got.symbols eos unix_ms)) [
            | inl dropped ↦ absurd (ground (arith, ecc, dropped, emits))
            | inr kept ↦ rw (ecc, kept) (refl, refl, refl, refl)
          ]
    ]

handle_words-calls :
    (ctx : DscDecCtx) (source : Option Bytes) (best : Best) (got : Collected) (unix_ms : ℕ)
    (e : Emitted)
    → (handle_words ctx source best got unix_ms).1 ≡ some e
    → (is_empty got.symbols ≡ false)
      × (handle_words ctx source best got unix_ms ≡ handle_call ctx source best got unix_ms)
unfolding handle_words
handle_words-calls ctx source best got unix_ms e emits = ground (arith, emits)

handle_words-duplicate :
    (ctx : DscDecCtx) (source : Option Bytes) (best : Best) (got : Collected) (unix_ms : ℕ)
    → is_duplicate ctx (hex_of got.symbols) unix_ms ≡ true
    → (handle_words ctx source best got unix_ms).1 ≡ none
unfolding handle_words
handle_words-duplicate ctx source best got unix_ms again = ground (arith, again)

is_duplicate-again :
    (ctx : DscDecCtx) (symbols : List ℕ) (then_ms now_ms : ℕ)
    → is_empty symbols ≡ false
    → ctx.drop_duplicates ≡ true
    → ctx.last_payload_hex ≡ hex_of symbols
    → ctx.last_unix_ms ≡ then_ms
    → then_ms ≤ now_ms
    → now_ms < then_ms + 2500
    → is_duplicate ctx (hex_of symbols) now_ms ≡ true
unfolding is_duplicate hex_of
is_duplicate-again ctx [] then_ms now_ms some_symbol drops payload at later soon =
    ground (arith, some_symbol)
is_duplicate-again ctx (s ∷ symbols) then_ms now_ms some_symbol drops payload at later soon =
    let reached : leb then_ms now_ms ≡ true = ground (arith, later) in
    let within : ltb (now_ms - then_ms) 2500 ≡ true = ground (arith, later, soon) in
    rw (drops, payload, at, same_refl (hex_of (s ∷ symbols)), reached, within) refl

abbrev pub found_symbols : DscDecCtx → List ℕ → ℕ → Collected
found_symbols ctx bit_bytes bit_count =
    let best = search_offset (bits_of bit_bytes) bit_count in
    collect (bits_of bit_bytes) ctx.reverse_data_bits best.best_total best.best_off

process_bits-long :
    (ctx : DscDecCtx) (bit_bytes : List ℕ) (bit_count unix_ms : ℕ) (source : Option Bytes)
    (e : Emitted)
    → (process_bits ctx bit_bytes bit_count unix_ms source).1 ≡ some e
    → ltb bit_count 20 ≡ false
unfolding process_bits
process_bits-long ctx bit_bytes bit_count unix_ms source e emits = ground (arith, emits)

process_bits-words :
    (ctx : DscDecCtx) (bit_bytes : List ℕ) (bit_count unix_ms : ℕ) (source : Option Bytes)
    → ltb bit_count 20 ≡ false
    → process_bits ctx bit_bytes bit_count unix_ms source
      ≡ handle_words
          (count_block ctx)
          source
          (search_offset (bits_of bit_bytes) bit_count)
          (found_symbols ctx bit_bytes bit_count)
          unix_ms
unfolding process_bits
process_bits-words ctx bit_bytes bit_count unix_ms source long = rw (long) refl

-- Bits of which a call was emitted, and which are heard again within two and a half seconds while
-- duplicates are dropped, are not emitted again, whatever their source.
pub process_bits-again :
    (ctx : DscDecCtx) (bit_bytes : List ℕ) (bit_count then_ms now_ms : ℕ)
    (source source' : Option Bytes) (e : Emitted)
    → ctx.drop_duplicates ≡ true
    → (process_bits ctx bit_bytes bit_count then_ms source).1 ≡ some e
    → then_ms ≤ now_ms
    → now_ms < then_ms + 2500
    → (process_bits
        (process_bits ctx bit_bytes bit_count then_ms source).0
        bit_bytes
        bit_count
        now_ms
        source').1
      ≡ none
process_bits-again ctx bit_bytes bit_count then_ms now_ms source source' e drops emits later soon =
    let best = search_offset (bits_of bit_bytes) bit_count in
    let got = found_symbols ctx bit_bytes bit_count in
    let counted = count_block ctx in
    let long = process_bits-long ctx bit_bytes bit_count then_ms source e emits in
    let is_words = process_bits-words ctx bit_bytes bit_count then_ms source long in
    let (some_symbol, is_call) =
      handle_words-calls counted source best got then_ms e
        (sym (ap (λ (r : DscDecCtx × Option Emitted). r.1) is_words) ∙ emits) in
    let called = is_words ∙ is_call in
    let after = (process_bits ctx bit_bytes bit_count then_ms source).0 in
    let (payload, at, drops', reverse') =
      subst
        (λ (r : DscDecCtx × Option Emitted). IsRemembered counted r.0 (hex_of got.symbols) then_ms)
        (sym called)
        (handle_call-remembers counted source best got then_ms e
          (sym (ap (λ (r : DscDecCtx × Option Emitted). r.1) called) ∙ emits)) in
    let same_symbols : (found_symbols after bit_bytes bit_count).symbols ≡ got.symbols =
      ap (λ reverse. (collect (bits_of bit_bytes) reverse best.best_total best.best_off).symbols)
        reverse' in
    ap (λ (r : DscDecCtx × Option Emitted). r.1)
      (process_bits-words after bit_bytes bit_count now_ms source' long)
    ∙ handle_words-duplicate (count_block after) source' best
        (found_symbols after bit_bytes bit_count) now_ms
        (subst (λ symbols. is_duplicate (count_block after) (hex_of symbols) now_ms ≡ true)
          (sym same_symbols)
          (is_duplicate-again (count_block after) got.symbols then_ms now_ms some_symbol
            (drops' ∙ drops) payload at later soon))
