-- ===== src/Dsc/Silence.antt =====
-- The filter of plugins/dsc_decoder.c that counts the repeats of the end of a sequence, and what the
-- worker's settings make of it.
use multi_radio.Ais.Hdlc.{bits_of}
use multi_radio.Dsc.Process.{
  process_bits, is_filtered, count_block, count_ecc, handle_call, handle_words,
}
use multi_radio.Dsc.Decoder.{DscDecCtx, ecc_at}
use multi_radio.Dsc.Words.{Collected, collect}
use multi_radio.Dsc.Search.{Best, search_offset}
use multi_radio.Common.{
  ℕ, ◌≤◌, ◌≡◌, refl, subst, inl, inr, true, false, Option, none, some, List, [], ◌∷◌, arith,
  ==_refl, Bool-cases, Option-cases, All, Bytes,
}
use multi_radio.Dsc.Call.{is_eos, last_eos, repeats, eos_tail_repeats, later_eos}

-- Nothing was found in symbols that do not end a sequence.
pub last_eos-none :
    (symbols : List ℕ) → last_eos symbols ≡ none → All (λ s. is_eos s ≡ false) symbols
unfolding last_eos later_eos
last_eos-none [] e = tt
last_eos-none (s ∷ symbols) e = elim (Option-cases (last_eos symbols)) [
  | inl e' ↦ elim (Bool-cases (is_eos s)) [
    | inl h ↦ ground (arith, e, e', h)
    | inr h ↦ (h, last_eos-none symbols e')
  ]
  | inr (p, e') ↦ ground (arith, e, e')
]

repeats-other :
    (v : ℕ) (symbols : List ℕ)
    → is_eos v ≡ true
    → All (λ s. is_eos s ≡ false) symbols
    → repeats v symbols ≡ 0
unfolding repeats
repeats-other v [] h others = refl
repeats-other v (s ∷ symbols) h others = ground (arith, h, others.0)

pub eos_tail_repeats-le : (symbols : List ℕ) → eos_tail_repeats symbols (last_eos symbols) ≤ 1
unfolding eos_tail_repeats last_eos later_eos repeats
eos_tail_repeats-le [] = omega arith
eos_tail_repeats-le (s ∷ symbols) =
    let before = eos_tail_repeats-le symbols in
    elim (Option-cases (last_eos symbols)) [
      | inl e ↦ elim (Bool-cases (is_eos s)) [
        | inl h ↦
            rw (e, h, ==_refl s, repeats-other s symbols h (last_eos-none symbols e)) (omega arith)
        | inr h ↦ rw (e, h) (omega arith)
      ]
      | inr ((i, v), e) ↦ rw (e) (subst (λ o. eos_tail_repeats symbols o ≤ 1) e before)
    ]

is_filtered-tail :
    (ctx : DscDecCtx) (symbols : List ℕ) (unix_ms : ℕ)
    → 2 ≤ ctx.min_eos_tail_repeats
    → is_filtered ctx symbols (last_eos symbols) unix_ms ≡ true
unfolding is_filtered
is_filtered-tail ctx symbols unix_ms h =
    let few = eos_tail_repeats-le symbols in ground (arith, few, h)

handle_call-silent :
    (ctx : DscDecCtx) (source : Option Bytes) (best : Best) (got : Collected) (unix_ms : ℕ)
    → 2 ≤ ctx.min_eos_tail_repeats
    → ((handle_call ctx source best got unix_ms).1 ≡ none)
      × ((handle_call ctx source best got unix_ms).0.min_eos_tail_repeats
          ≡ ctx.min_eos_tail_repeats)
unfolding handle_call
handle_call-silent ctx source best got unix_ms h =
    elim (Option-cases (ecc_at (last_eos got.symbols))) [
      | inl e ↦ rw (e, is_filtered-tail (count_ecc ctx none) got.symbols unix_ms h) (refl, refl)
      | inr (i, e) ↦
          rw (e, is_filtered-tail (count_ecc ctx (some i)) got.symbols unix_ms h) (refl, refl)
    ]

handle_words-silent :
    (ctx : DscDecCtx) (source : Option Bytes) (best : Best) (got : Collected) (unix_ms : ℕ)
    → 2 ≤ ctx.min_eos_tail_repeats
    → ((handle_words ctx source best got unix_ms).1 ≡ none)
      × ((handle_words ctx source best got unix_ms).0.min_eos_tail_repeats
          ≡ ctx.min_eos_tail_repeats)
unfolding handle_words
handle_words-silent ctx source best got unix_ms h =
    let (none_out, kept) = handle_call-silent ctx source best got unix_ms h in
    ground (arith, none_out, kept)

-- While the settings ask for two repeats or more of the end of a sequence, no bits make the decoder
-- emit anything, and they do not change that setting.
pub process_bits-silent :
    (ctx : DscDecCtx) (bit_bytes : List ℕ) (bit_count unix_ms : ℕ) (source : Option Bytes)
    → 2 ≤ ctx.min_eos_tail_repeats
    → ((process_bits ctx bit_bytes bit_count unix_ms source).1 ≡ none)
      × ((process_bits ctx bit_bytes bit_count unix_ms source).0.min_eos_tail_repeats
          ≡ ctx.min_eos_tail_repeats)
unfolding process_bits
process_bits-silent ctx bit_bytes bit_count unix_ms source h =
    let bits = bits_of bit_bytes in
    let best = search_offset bits bit_count in
    let counted = count_block ctx in
    let (none_out, kept) =
      handle_words-silent counted source best
        (collect bits ctx.reverse_data_bits best.best_total best.best_off) unix_ms h in
    ground (arith, none_out, kept)
