-- ===== src/Worker/ScannerSquelch.antt =====
-- The squelch of the scanner of `Worker.Scanner`: when its audio is muted, and when it stays on a
-- channel.
use native.Mathlib.Nat.{mod-lt}
use multi_radio.Common.{
  ℕ, ◌+◌, ◌%◌, ◌≤◌, ◌<◌, ◌≡◌, refl, inl, inr, Bool, true, false, not, ◌&&◌, Option, none, some,
  List, [], arith, ltb, leb, Bool-cases, length, is_empty, get_elem?, get_elem?-some, zero, suc, ap,
  ◌∙◌, ◌∷◌,
}
use multi_radio.Types.Data.{ScanListChannel, ModeConfig}
use multi_radio.Types.Double.{Doubles}
use multi_radio.Worker.Scanner.{
  ScanState, waiting, opened, tail, is_open, Scan, ScanEvent, ms, scan_check_ms, squelch_bypass,
  gate_state, locked_target, signal_above, dwell_over, gate, advance, check_channel,
  scan_list_round,
}
use multi_radio.Worker.ScannerSafety.{report_lem, gate_state-channel_idx}
use multi_radio.Worker.ScannerLiveness.{lock-unlocked, occupied}

-- The audio is muted in every state but the open one.
abbrev pub IsGated : Scan → Type 0
IsGated s = s.audio_muted ≡ not (is_open s.state)

-- What the switch over the states does to a gated scanner, at each signal.
gate_state-IsGated :
    (state : ScanState) (above over : Bool) (now : ℕ) (s : Scan)
    → s.state ≡ state
    → IsGated s
    → IsGated (gate_state state above over now s).0
      × (above ≡ true
          → ((gate_state state above over now s).0.state ≡ opened)
            × ((gate_state state above over now s).1 ≡ false))
unfolding gate_state
gate_state-IsGated waiting true over now s e h = (refl, λ k. (refl, refl))
gate_state-IsGated waiting false over now s e h = (h, λ k. cc)
gate_state-IsGated opened true over now s e h = (h, λ k. (e, refl))
gate_state-IsGated opened false over now s e h = (refl, λ k. cc)
gate_state-IsGated tail true over now s e h = (refl, λ k. (refl, refl))
gate_state-IsGated tail false over now s e h = (h, λ k. cc)

get_elem?-lt {ℓ} :
    {A : Type ℓ} (xs : List A) (i : ℕ) (x : A) → get_elem? xs i ≡ some x → i < length xs
get_elem?-lt [] i x e = cc
get_elem?-lt (y ∷ xs) zero x e = omega arith
get_elem?-lt (y ∷ xs) (suc i) x e = omega (arith, get_elem?-lt xs i x e)

not_early :
    {empty : Bool} {next now : ℕ}
    → empty ≡ false
    → next ≤ now
    → ¬ ((not empty && leb next now) ≡ false)
not_early e k early = ground (arith, e, k, early)

module _ {D : Type 0} (f : Doubles D) where
  -- The list is in normal mode and unlocked, and the squelch of its channels is looked at.
  pub record IsNormal (config : ModeConfig D) : Type 0 where
    pub no_monitor : config.scan_list_monitor_mode ≡ false
    pub unlocked : locked_target config ≡ none
    pub no_bypass :
        (i : ℕ) (ch : ScanListChannel D)
        → get_elem? config.scan_list_channels i ≡ some ch
        → squelch_bypass ch.modulation ≡ false

  advance-IsGated :
      (config : ModeConfig D) (cur now : ℕ) (s : Scan) (go : Bool)
      → cur < length config.scan_list_channels
      → IsGated s
      → (q : Scan × List (ScanEvent D)) × (advance f config cur now (s, go) ≡ some q)
        × IsGated (q.0)
        × (go ≡ false → q.0 ≡ s)
  unfolding advance
  advance-IsGated config cur now s false inside h = ((s, []), refl, h, λ k. refl)
  advance-IsGated config cur now s true inside h =
      let n = length config.scan_list_channels in
      let (ch, at) =
        get_elem?-some config.scan_list_channels ((cur + 1) % n)
          (mod-lt (cur + 1) (omega (arith, inside))) in
      elim (Bool-cases (ltb 1 n)) [
        | inl several ↦ rw (advance, several, at) (_, refl, refl, λ k. cc)
        | inr single ↦ rw (advance, single) (_, refl, refl, λ k. cc)
      ]

  gate-normal :
      (config : ModeConfig D) (rssi : D) (now : ℕ) (s : Scan) (ch : ScanListChannel D)
      → IsNormal config
      → get_elem? config.scan_list_channels s.channel_idx ≡ some ch
      → gate f config ch rssi now s
        ≡ gate_state s.state (signal_above f config ch rssi) (dwell_over f config ch now s) now s
  unfolding gate
  gate-normal config rssi now s ch normal at =
      rw (normal.no_monitor, normal.no_bypass s.channel_idx ch at) refl

  -- A round of a scanner in normal mode whose audio is muted in every state but the open one keeps
  -- that so; and if its check is due and the signal reaches the squelch of the channel, it is open on
  -- the same channel, however long it dwelt there.
  pub scan_list_round-IsGated :
      (config : ModeConfig D) (rssi : D) (audio_idx : Option ℕ) (now : ℕ) (s : Scan)
      (ch : ScanListChannel D)
      → IsNormal config
      → get_elem? config.scan_list_channels s.channel_idx ≡ some ch
      → IsGated s
      → (q : Scan × List (ScanEvent D)) × (scan_list_round f config rssi audio_idx now s ≡ some q)
        × IsGated (q.0)
        × (s.next_check_at ≤ now
            → signal_above f config ch rssi ≡ true
            → (q.0.state ≡ opened) × (q.0.channel_idx ≡ s.channel_idx))
  unfolding scan_list_round check_channel
  scan_list_round-IsGated config rssi audio_idx now s ch normal at h =
      let s0 : Scan = record s { next_check_at = now + ms scan_check_ms } in
      let over = dwell_over f config ch now s0 in
      let above = signal_above f config ch rssi in
      let gated = gate_state s.state above over now s0 in
      let gate_e : gate f config ch rssi now s0 ≡ gated =
        gate-normal config rssi now s0 ch normal at in
      let inside : s.channel_idx < length config.scan_list_channels =
        get_elem?-lt config.scan_list_channels s.channel_idx ch at in
      let (gated_h, opens) = gate_state-IsGated s.state above over now s0 refl h in
      let (moved, move_e, moved_h, stays) =
        advance-IsGated config s.channel_idx now (gated.0) (gated.1) inside gated_h in
      let (status, report_e) = report_lem f config rssi audio_idx s.channel_idx (moved.0) inside in
      elim (Bool-cases (not (is_empty config.scan_list_channels) && leb s.next_check_at now)) [
        | inl due ↦
            rw (due, at, gate_e, lock-unlocked f config now gated normal.unlocked, move_e, report_e)
              (
                _,
                refl,
                moved_h,
                λ k above_e.
                    let (is_opened, no_advance) = opens above_e in
                    let kept = stays no_advance in
                    (
                      ap (λ (x : Scan). x.state) kept ∙ is_opened,
                      ap (λ (x : Scan). x.channel_idx) kept
                          ∙ gate_state-channel_idx s.state above over now s0,
                    ),
              )
        | inr early ↦ rw early (
          _,
          refl,
          h,
          λ k above_e.
              absurd
                (not_early (occupied config.scan_list_channels (omega (arith, inside))) k early),
        )
      ]
