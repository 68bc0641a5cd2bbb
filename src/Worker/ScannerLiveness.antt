-- ===== src/Worker/ScannerLiveness.antt =====
-- The scanner of `Worker.Scanner` moves on: over silent channels it goes round the list.
use native.Mathlib.Nat.{mod-lt, mod-eq_of_lt, mod-add-mod}
use multi_radio.Common.{
  ℕ, zero, suc, ◌+◌, ◌≤◌, ◌<◌, ◌≡◌, refl, ◌⊎◌, inl, inr, true, false, ◌||◌, Option, none, some,
  arith, ◌>>=◌, length, get_elem?, ◌%◌, not, ◌&&◌, List, [], ◌∷◌, ◌++◌, leb, lt→ltb, Bool-cases,
  is_empty, get_elem?-some, sym, ◌∙◌, ap, Bool,
}
use multi_radio.Types.Data.{ScanListChannel, ModeConfig}
use multi_radio.Types.Double.{Doubles}
use multi_radio.Worker.Scanner.{
  waiting, Scan, ms, elapsed_ms, scan_check_ms, squelch_bypass, gate_state, locked_target,
  signal_above, effective_dwell_ms, dwell_over, gate, scan_list_round, ScanEvent, lock, advance,
  check_channel, start_scan,
}
use multi_radio.Worker.ScannerSafety.{InRange, report_lem}

pub occupied {ℓ} : {A : Type ℓ} (xs : List A) → 0 < length xs → is_empty xs ≡ false
occupied [] h = absurd (omega (arith, h))
occupied (x ∷ xs) h = refl

module _ {D : Type 0} (f : Doubles D) where
  -- A channel that does not hold the scanner: its squelch is closed, or is not looked at.
  abbrev pub Passes : ModeConfig D → D → ScanListChannel D → Type 0
  Passes config rssi ch =
      ((config.scan_list_monitor_mode || squelch_bypass ch.modulation) ≡ true)
      ⊎ (signal_above f config ch rssi ≡ false)

  -- Several channels, no lock, and on each channel a closed squelch and a dwell of at most `gap`
  -- milliseconds.
  pub record IsSilent (config : ModeConfig D) (rssi : D) (gap : ℕ) : Type 0 where
    pub several : 1 < length config.scan_list_channels
    pub unlocked : locked_target config ≡ none
    pub passes :
        (i : ℕ) (ch : ScanListChannel D)
        → get_elem? config.scan_list_channels i ≡ some ch
        → Passes config rssi ch
    pub short :
        (i : ℕ) (ch : ScanListChannel D)
        → get_elem? config.scan_list_channels i ≡ some ch
        → effective_dwell_ms f config ch ≤ gap
    pub checked : scan_check_ms ≤ gap

  -- Rounds that come every `gap` milliseconds.
  unfoldable pub sweep : ModeConfig D → D → Option ℕ → ℕ → ℕ → ℕ → Scan → Option Scan
  sweep config rssi audio_idx gap zero now s = some s
  sweep config rssi audio_idx gap (suc count) now s = do
    (s1, events) ← scan_list_round f config rssi audio_idx now s
    sweep config rssi audio_idx gap count (now + ms gap) s1

  -- The scanner waits on a channel of the list, whose dwell and whose check have run out by `now`.
  record IsRipe (config : ModeConfig D) (gap now : ℕ) (s : Scan) : Type 0 where
    waits : s.state ≡ waiting
    inside : InRange config s
    dwelt : s.dwell_started_at + ms gap ≤ now
    due : s.next_check_at ≤ now

  over :
      (config : ModeConfig D) (ch : ScanListChannel D) (gap now : ℕ) (s : Scan)
      → 1 < length config.scan_list_channels
      → effective_dwell_ms f config ch ≤ gap
      → s.dwell_started_at + ms gap ≤ now
      → dwell_over f config ch now s ≡ true
  over config ch gap now s several short dwelt =
      let late : effective_dwell_ms f config ch ≤ elapsed_ms now s.dwell_started_at =
        omega (arith, short, dwelt) in
      ground (arith, several, late)

  gate-ripe :
      (config : ModeConfig D) (ch : ScanListChannel D) (rssi : D) (now : ℕ) (s : Scan)
      → Passes config rssi ch
      → s.state ≡ waiting
      → dwell_over f config ch now s ≡ true
      → (s' : Scan) × (gate f config ch rssi now s ≡ (s', true))
        × (s'.channel_idx ≡ s.channel_idx)
        × (s'.next_check_at ≡ s.next_check_at)
  unfolding gate gate_state
  gate-ripe config ch rssi now s (inl bypass) w over_ = rw (bypass, over_) (_, refl, refl, refl)
  gate-ripe config ch rssi now s (inr closed) w over_ =
      elim (Bool-cases (config.scan_list_monitor_mode || squelch_bypass ch.modulation)) [
        | inl bypass ↦ rw (bypass, over_) (_, refl, refl, refl)
        | inr normal ↦ rw (normal, w, closed, over_) (_, refl, refl, refl)
      ]

  advance-ripe :
      (config : ModeConfig D) (cur now : ℕ) (s : Scan)
      → 1 < length config.scan_list_channels
      → (q : Scan × List (ScanEvent D)) × (advance f config cur now (s, true) ≡ some q)
        × (q.0.channel_idx ≡ (cur + 1) % length config.scan_list_channels)
        × (q.0.state ≡ waiting)
        × (q.0.dwell_started_at ≡ now)
        × (q.0.next_check_at ≡ s.next_check_at)
  unfolding advance
  advance-ripe config cur now s several =
      let n = length config.scan_list_channels in
      let (ch, at) =
        get_elem?-some config.scan_list_channels ((cur + 1) % n)
          (mod-lt (cur + 1) (omega (arith, several))) in
      rw (advance, lt→ltb 1 n several, at) (_, refl, refl, refl, refl, refl)

  pub lock-unlocked :
      (config : ModeConfig D) (now : ℕ) (r : Scan × Bool)
      → locked_target config ≡ none
      → lock f config now r ≡ some (r, [])
  unfolding lock
  lock-unlocked config now (s, go) e = rw (lock, e) refl

  round-IsRipe :
      (config : ModeConfig D) (rssi : D) (audio_idx : Option ℕ) (gap now : ℕ) (s : Scan)
      → IsSilent config rssi gap
      → IsRipe config gap now s
      → (q : Scan × List (ScanEvent D)) × (scan_list_round f config rssi audio_idx now s ≡ some q)
        × (q.0.channel_idx ≡ (s.channel_idx + 1) % length config.scan_list_channels)
        × IsRipe config gap (now + ms gap) (q.0)
  unfolding scan_list_round check_channel
  round-IsRipe config rssi audio_idx gap now s silent ripe =
      let s0 : Scan = record s { next_check_at = now + ms scan_check_ms } in
      let (ch, at) = get_elem?-some config.scan_list_channels s.channel_idx ripe.inside in
      let (gated, gate_e, same_idx, same_check) =
        gate-ripe config ch rssi now s0 (silent.passes s.channel_idx ch at) ripe.waits
          (over config ch gap now s silent.several (silent.short s.channel_idx ch at) ripe.dwelt) in
      let (moved, move_e, next, waits, dwelt, check) =
        advance-ripe config s.channel_idx now gated silent.several in
      let (status, report_e) =
        report_lem f config rssi audio_idx s.channel_idx (moved.0) ripe.inside in
      let due : (not (is_empty config.scan_list_channels) && leb s.next_check_at now) ≡ true =
        rw (occupied config.scan_list_channels (omega (arith, silent.several)))
          (ground (arith, ripe.due)) in
      (
        (moved.0, moved.1 ++ (status ∷ [])),
        rw
            (
              due,
              at,
              gate_e,
              lock-unlocked config now (gated, true) silent.unlocked,
              move_e,
              report_e,
            )
            refl,
        next,
        record {
          waits = waits;
          inside = rw next (mod-lt (s.channel_idx + 1) (omega (arith, silent.several)));
          dwelt = omega (arith, dwelt);
          due = omega (arith, check, same_check, silent.checked);
        },
      )

  sweep-ripe :
      (config : ModeConfig D) (rssi : D) (audio_idx : Option ℕ) (gap count now : ℕ) (s : Scan)
      → IsSilent config rssi gap
      → IsRipe config gap now s
      → (s' : Scan) × (sweep config rssi audio_idx gap count now s ≡ some s')
        × (s'.channel_idx ≡ (s.channel_idx + count) % length config.scan_list_channels)
  unfolding sweep
  sweep-ripe config rssi audio_idx gap zero now s silent ripe = (
    s,
    refl,
    sym (mod-eq_of_lt {n = s.channel_idx + 0} (omega (arith, ripe.inside)) ∙ omega arith),
  )
  sweep-ripe config rssi audio_idx gap (suc count) now s silent ripe =
      let (q, e, next, ripe') = round-IsRipe config rssi audio_idx gap now s silent ripe in
      let (s', e', at) =
        sweep-ripe config rssi audio_idx gap count (now + ms gap) (q.0) silent ripe' in
      (
        s',
        rw e e',
        at
            ∙ ap (λ i. (i + count) % length config.scan_list_channels) next
            ∙ mod-add-mod (s.channel_idx + 1) (length config.scan_list_channels) count
            ∙ ap (λ k. k % length config.scan_list_channels) (omega arith),
      )

  -- With no lock, and no channel that holds the scanner, rounds that come late enough for the dwell
  -- of every channel move the scanner on by one channel each, round the list and past its end, and
  -- none of them faults.
  pub sweep_round_robin :
      (config : ModeConfig D) (rssi : D) (audio_idx : Option ℕ) (gap count start idx : ℕ)
      → IsSilent config rssi gap
      → idx < length config.scan_list_channels
      → (s' : Scan) × (sweep config rssi audio_idx gap count (start + ms gap) (start_scan start idx)
          ≡ some s')
        × (s'.channel_idx ≡ (idx + count) % length config.scan_list_channels)
  sweep_round_robin config rssi audio_idx gap count start idx silent inside =
      sweep-ripe config rssi audio_idx gap count (start + ms gap) (start_scan start idx) silent
        (record { waits = refl; inside = inside; dwelt = omega arith; due = omega arith })
