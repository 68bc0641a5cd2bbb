-- ===== src/Worker/ScannerSafety.antt =====
-- What a round of the scanner of `Worker.Scanner` preserves.
use native.Mathlib.Nat.{mod-lt}
use multi_radio.Common.{
  ℕ, ◌<◌, ◌≡◌, refl, inl, inr, Bool, true, false, ◌||◌, some, List, [], arith, ◌==◌, Bool-cases,
  Option-cases, length, get_elem?-some, ◌+◌, ◌%◌, sym, subst, not, ◌&&◌, Option, ◌∷◌, ◌++◌, ltb,
  leb, is_empty,
}
use multi_radio.Types.Data.{ScanListChannel, ModeConfig}
use multi_radio.Types.Double.{Doubles}
use multi_radio.Worker.Scanner.{
  ScanState, waiting, opened, tail, Scan, ScanEvent, squelch_bypass, gate_state, locked_target,
  signal_above, dwell_over, gate, lock, ms, scan_check_ms, advance, reported_index, report,
  check_channel, scan_list_round,
}

abbrev pub InRange : {D : Type 0} → ModeConfig D → Scan → Type 0
InRange config s = s.channel_idx < length config.scan_list_channels

pub gate_state-channel_idx :
    (state : ScanState) (above dwell : Bool) (now : ℕ) (s : Scan)
    → ((gate_state state above dwell now s).0).channel_idx ≡ s.channel_idx
unfolding gate_state
gate_state-channel_idx waiting true dwell now s = refl
gate_state-channel_idx waiting false dwell now s = refl
gate_state-channel_idx opened true dwell now s = refl
gate_state-channel_idx opened false dwell now s = refl
gate_state-channel_idx tail true dwell now s = refl
gate_state-channel_idx tail false dwell now s = refl

locked_target_lt :
    {D : Type 0} (config : ModeConfig D) (k : ℕ)
    → locked_target config ≡ some k
    → k < length config.scan_list_channels
unfolding locked_target
locked_target_lt config k h = ground (arith, h)

module _ {D : Type 0} (f : Doubles D) where
  pub gate-channel_idx :
      (config : ModeConfig D) (ch : ScanListChannel D) (rssi : D) (now : ℕ) (s : Scan)
      → ((gate f config ch rssi now s).0).channel_idx ≡ s.channel_idx
  unfolding gate
  gate-channel_idx config ch rssi now s =
      elim (Bool-cases (config.scan_list_monitor_mode || squelch_bypass ch.modulation)) [
        | inl e ↦ rw e refl
        | inr e ↦ rw e (
            gate_state-channel_idx s.state (signal_above f config ch rssi)
              (dwell_over f config ch now s) now s)
      ]

  lock_lem :
      (config : ModeConfig D) (now : ℕ) (r : Scan × Bool)
      → InRange config (r.0)
      → (q : (Scan × Bool) × List (ScanEvent D)) × (lock f config now r ≡ some q)
        × InRange config (q.0.0)
  unfolding lock
  lock_lem config now (s, go) inside = elim (Option-cases (locked_target config)) [
    | inl e ↦ rw (lock, e) (_, refl, inside)
    | inr (k, e) ↦
        let (ch, at) = get_elem?-some config.scan_list_channels k (locked_target_lt config k e) in
        elim (Bool-cases (s.channel_idx == k)) [
          | inl stays ↦ rw (lock, e, at, stays) (_, refl, inside)
          | inr jumps ↦ rw (lock, e, at, jumps) (_, refl, locked_target_lt config k e)
        ]
  ]

  advance_lem :
      (config : ModeConfig D) (cur now : ℕ) (r : Scan × Bool)
      → InRange config (r.0)
      → (q : Scan × List (ScanEvent D)) × (advance f config cur now r ≡ some q)
        × InRange config (q.0)
  unfolding advance
  advance_lem config cur now (s, false) inside = ((s, []), refl, inside)
  advance_lem config cur now (s, true) inside =
      let n = length config.scan_list_channels in
      elim (Bool-cases (ltb 1 n)) [
        | inl several ↦
            let (ch, at) =
              get_elem?-some config.scan_list_channels ((cur + 1) % n)
                (mod-lt (cur + 1) (omega (arith, inside))) in
            rw (advance, several, at) (_, refl, mod-lt (cur + 1) (omega (arith, inside)))
        | inr single ↦ rw (advance, single) (_, refl, inside)
      ]

  pub report_lem :
      (config : ModeConfig D) (rssi : D) (audio_idx : Option ℕ) (cur : ℕ) (s : Scan)
      → cur < length config.scan_list_channels
      → (e : ScanEvent D) × (report f config rssi audio_idx cur s ≡ some e)
  unfolding report
  report_lem config rssi audio_idx cur s inside =
      let i = reported_index config audio_idx cur in
      let (ch, at) = get_elem?-some config.scan_list_channels i (ground (arith, inside)) in
      rw (report, at) (_, refl)

  check_lem :
      (config : ModeConfig D) (rssi : D) (audio_idx : Option ℕ) (now : ℕ) (s : Scan)
      → InRange config s
      → (q : Scan × List (ScanEvent D)) × (check_channel f config rssi audio_idx now s ≡ some q)
        × InRange config (q.0)
  unfolding check_channel
  check_lem config rssi audio_idx now s inside =
      let (ch, at) = get_elem?-some config.scan_list_channels s.channel_idx inside in
      let gated = gate f config ch rssi now s in
      let (locked, lock_e, locked_in) = lock_lem config now gated (
        subst (λ i. i < length config.scan_list_channels)
          (sym (gate-channel_idx config ch rssi now s)) inside) in
      let (moved, move_e, moved_in) = advance_lem config s.channel_idx now (locked.0) locked_in in
      let (status, report_e) = report_lem config rssi audio_idx s.channel_idx (moved.0) inside in
      (
        (moved.0, locked.1 ++ (moved.1 ++ (status ∷ []))),
        rw (at, lock_e, move_e, report_e) refl,
        moved_in,
      )

  -- A round that starts with the index inside the channels of the list reads no channel past its
  -- end, whatever the lock, the reported index and the signal, and leaves the index inside.
  pub scan_list_round-InRange :
      (config : ModeConfig D) (rssi : D) (audio_idx : Option ℕ) (now : ℕ) (s : Scan)
      → InRange config s
      → (q : Scan × List (ScanEvent D)) × (scan_list_round f config rssi audio_idx now s ≡ some q)
        × InRange config (q.0)
  unfolding scan_list_round
  scan_list_round-InRange config rssi audio_idx now s inside =
      elim (Bool-cases (not (is_empty config.scan_list_channels) && leb s.next_check_at now)) [
        | inl due ↦
            let (q, e, after) =
              check_lem config rssi audio_idx now
                (record s { next_check_at = now + ms scan_check_ms }) inside in
            (q, rw due e, after)
        | inr early ↦ ((s, []), rw early refl, inside)
      ]
