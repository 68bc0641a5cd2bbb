-- ===== src/Worker/Scanner.antt =====
-- The scanner of the output loop of backend/src/receiver_worker.cpp: the state machine that opens
-- and closes the squelch of a scan list and moves to the next channel, and the dwell of a scan
-- range. Times are nanoseconds of the steady clock, which does not run backwards; a duration in
-- milliseconds is rounded down, as `duration_cast` does. `channel_idx` is `scan_channel_idx_` of
-- the worker, which is never negative; the other fields are locals of the loop.
use multi_radio.Common.{
  ◌>>=◌, ℕ, ◌+◌, ◌-◌, ◌*◌, ◌/◌, ◌%◌, Bool, true, false, not, ◌&&◌, ◌||◌, Option, none, some, List,
  [], ◌∷◌, ◌++◌, ltb, leb, ◌==◌, if◌then◌else◌, length, is_empty, get_elem?,
}
use multi_radio.Types.Data.{Modulation, nonneg, neg, ScanListChannel, ModeConfig}
use multi_radio.Types.Double.{Doubles}
use multi_radio.Worker.Config.{is_adsb, is_ais_dual}
use multi_radio.Worker.Channel.{squelch_of}

pub data ScanState : Type 0 where
  waiting opened tail : ScanState

abbrev pub is_open : ScanState → Bool
is_open opened = true
is_open _ = false

pub record Scan : Type 0 where
  pub state : ScanState
  pub audio_muted : Bool
  pub dwell_started_at : ℕ
  pub tail_started_at : ℕ
  pub next_check_at : ℕ
  pub channel_idx : ℕ

-- The events that the scanner publishes, with the values that their texts print.
pub data ScanEvent (D : Type 0) : Type 0 where
  scan_select_lock : ℕ → Modulation → D → ScanEvent D
  scan_select_dwell : ℕ → Modulation → D → ScanEvent D
  scan_status : ℕ → Bool → D → D → Bool → ScanEvent D

abbrev pub ms : ℕ → ℕ
ms n = n * 1000000

abbrev pub elapsed_ms : ℕ → ℕ → ℕ
elapsed_ms now since = (now - since) / 1000000

abbrev pub scan_check_ms : ℕ
scan_check_ms = 200

abbrev pub scan_tail_ms : ℕ
scan_tail_ms = 500

-- The locals of the loop before its first round.
abbrev pub start_scan : ℕ → ℕ → Scan
start_scan now idx = record {
  state = waiting;
  audio_muted = true;
  dwell_started_at = now;
  tail_started_at = now;
  next_check_at = now;
  channel_idx = idx;
}

abbrev pub squelch_bypass : Modulation → Bool
squelch_bypass modulation = is_adsb modulation || is_ais_dual modulation

-- The switch over the state in normal mode, with `should_advance`.
unfoldable pub gate_state : ScanState → Bool → Bool → ℕ → Scan → Scan × Bool
gate_state waiting above dwell_over now s =
    if above then (record s { state = opened; audio_muted = false }, false) else (s, dwell_over)
gate_state opened above dwell_over now s =
    if above
    then (s, false)
    else (record s { state = tail; tail_started_at = now; audio_muted = true }, false)
gate_state tail above dwell_over now s =
    if above
    then (record s { state = opened; audio_muted = false }, false)
    else (s, leb scan_tail_ms (elapsed_ms now s.tail_started_at))

-- `none` where the channel is not locked to one of the list.
unfoldable pub locked_target : {D : Type 0} → ModeConfig D → Option ℕ
locked_target config = elim config.scan_list_locked_channel_index [
  | nonneg k ↦
      if config.scan_list_channel_locked && ltb k (length config.scan_list_channels)
      then some k
      else none
  | neg _ ↦ none
]

-- The channel that SCAN_STATUS reports: the one whose audio is in the ring buffer, if it is in
-- the list, and the one tuned at the start of the round otherwise.
abbrev pub reported_index : {D : Type 0} → ModeConfig D → Option ℕ → ℕ → ℕ
reported_index config none cur = cur
reported_index config (some i) cur = if ltb i (length config.scan_list_channels) then i else cur

module _ {D : Type 0} (f : Doubles D) where
  abbrev pub signal_above : ModeConfig D → ScanListChannel D → D → Bool
  signal_above config ch rssi = f.le (squelch_of f config ch) rssi

  abbrev pub effective_dwell_ms : ModeConfig D → ScanListChannel D → ℕ
  effective_dwell_ms config ch = if ltb 0 ch.dwell_ms then ch.dwell_ms else config.dwell_ms

  abbrev pub dwell_over : ModeConfig D → ScanListChannel D → ℕ → Scan → Bool
  dwell_over config ch now s =
      ltb 1 (length config.scan_list_channels)
      && leb (effective_dwell_ms config ch) (elapsed_ms now s.dwell_started_at)

  unfoldable pub gate : ModeConfig D → ScanListChannel D → D → ℕ → Scan → Scan × Bool
  gate config ch rssi now s =
      if config.scan_list_monitor_mode || squelch_bypass ch.modulation
      then (record s { audio_muted = false }, dwell_over config ch now s)
      else gate_state s.state (signal_above config ch rssi) (dwell_over config ch now s) now s

  -- The lock overrides the advance and jumps to the locked channel.
  unfoldable pub lock : ModeConfig D → ℕ → Scan × Bool → Option ((Scan × Bool) × List (ScanEvent D))
  unfolding locked_target
  lock config now (s, should_advance) = elim (locked_target config) [
    | none ↦ some ((s, should_advance), [])
    | some k ↦ elim (get_elem? config.scan_list_channels k) [
      | none ↦ none
      | some ch ↦
          let s1 = record s { audio_muted = false } in
          some (
            (
              if s.channel_idx == k
                  then s1
                  else record s1 { channel_idx = k; dwell_started_at = now; state = waiting },
              false,
            ),
            scan_select_lock k ch.modulation ch.frequency_hz ∷ [],
          )
    ]
  ]

  unfoldable pub advance : ModeConfig D → ℕ → ℕ → Scan × Bool → Option (Scan × List (ScanEvent D))
  advance config cur now (s, should_advance) =
      let n = length config.scan_list_channels in
      let s1 = record s { dwell_started_at = now; state = waiting; audio_muted = true } in
      let next = (cur + 1) % n in
      if not should_advance
      then some (s, [])
      else if not (ltb 1 n)
      then some (s1, [])
      else elim (get_elem? config.scan_list_channels next) [
        | none ↦ none
        | some ch ↦ some (
          record s1 { channel_idx = next },
          scan_select_dwell next ch.modulation ch.frequency_hz ∷ [],
        )
      ]

  unfoldable pub report : ModeConfig D → D → Option ℕ → ℕ → Scan → Option (ScanEvent D)
  report config rssi audio_idx cur s =
      let i = reported_index config audio_idx cur in
      elim (get_elem? config.scan_list_channels i) [
        | none ↦ none
        | some ch ↦ some (
            scan_status i
              (if config.scan_list_monitor_mode
                then signal_above config ch rssi
                else is_open s.state)
              rssi (squelch_of f config ch) config.scan_list_monitor_mode)
      ]

  -- The body of the check that runs every 200 ms. `none` is a read past the end of the channels.
  unfoldable pub check_channel :
      ModeConfig D → D → Option ℕ → ℕ → Scan → Option (Scan × List (ScanEvent D))
  unfolding gate lock advance report
  check_channel config rssi audio_idx now s = do
    let cur = s.channel_idx
    ch ← get_elem? config.scan_list_channels cur
    (gated, selected) ← lock config now (gate config ch rssi now s)
    (moved, dwelt) ← advance config cur now gated
    status ← report config rssi audio_idx cur moved
    some (moved, selected ++ (dwelt ++ (status ∷ [])))

  -- One round of the loop in a mode that scans a list.
  unfoldable pub scan_list_round :
      ModeConfig D → D → Option ℕ → ℕ → Scan → Option (Scan × List (ScanEvent D))
  unfolding check_channel
  scan_list_round config rssi audio_idx now s =
      if not (is_empty config.scan_list_channels) && leb s.next_check_at now
      then check_channel config rssi audio_idx now
          (record s { next_check_at = now + ms scan_check_ms })
      else some (s, [])

  -- One round of the loop in the mode that scans a range.
  unfoldable pub scan_range_round : ModeConfig D → ℕ → Scan → Scan
  scan_range_round config now s =
      let n = length config.frequency_list_hz in
      let s1 = record s { next_check_at = now + ms scan_check_ms } in
      if not (is_empty config.frequency_list_hz) && leb s.next_check_at now
      then (if ltb 1 n && leb config.dwell_ms (elapsed_ms now s.dwell_started_at)
          then record s1 { channel_idx = (s.channel_idx + 1) % n; dwell_started_at = now }
          else s1)
      else s
