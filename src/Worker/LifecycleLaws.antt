-- ===== src/Worker/LifecycleLaws.antt =====
-- What the calls of `Worker.Lifecycle` promise each other.
use multi_radio.Common.{
  ℕ, zero, suc, ◌≤◌, ◌<◌, ◌≡◌, refl, inl, inr, true, false, not, some, List, [], ◌∷◌, arith,
  Bool-cases, is_some, length,
}
use multi_radio.Types.Data.{ModeConfig}
use multi_radio.Types.Double.{Doubles}
use multi_radio.Worker.Config.{is_scan_range, normalize_mode_config}
use multi_radio.Worker.Scanner.{start_scan}
use multi_radio.Worker.ScannerSafety.{InRange}
use multi_radio.Worker.Lifecycle.{
  ReceiverWorker, Outcome, start, stop, range_loop, range_frequencies, set_mode_config,
}

-- The ring buffer is there exactly while the worker runs.
abbrev pub IsSound : {D : Type 0} → ReceiverWorker D → Type 0
IsSound w = w.running ≡ is_some w.audio_buffer

module _ {D : Type 0} (f : Doubles D) where
  -- The frequency after so many steps of the range.
  abbrev pub stepped : ℕ → D → D → D
  stepped zero x step = x
  stepped (suc n) x step = stepped n (f.plus x step) step

  -- A range of which some step lies beyond the limit is listed within that many rounds and the last
  -- test, and the list has at most that many frequencies.
  pub range_loop-total :
      (n : ℕ) (x limit step : D)
      → f.le (stepped n x step) limit ≡ false
      → (xs : List D) × (range_loop f (suc n) x limit step ≡ some xs) × (length xs ≤ n)
  unfolding range_loop
  range_loop-total zero x limit step h = ([], rw h refl, omega arith)
  range_loop-total (suc n) x limit step h = elim (Bool-cases (f.le x limit)) [
    | inl inside ↦
        let (xs, done, few) = range_loop-total n (f.plus x step) limit step h in
        (x ∷ xs, rw (range_loop, inside, done) refl, omega (arith, few))
    | inr past ↦ ([], rw (range_loop, past) refl, omega arith)
  ]

  -- On a worker whose buffer is there exactly while it runs, `Start` succeeds exactly if it was
  -- stopped, and leaves it running; `Stop` succeeds and leaves it stopped; both keep that rule. A
  -- second `Start` or `Stop` in a row changes nothing, publishes no event and makes no call on the plugin
  -- host, and the second `Start` fails.
  pub start-stop :
      (w : ReceiverWorker D)
      → IsSound w
      → ((start f w).1.result ≡ not w.running)
        × ((start f w).0.running ≡ true)
        × IsSound (start f w).0
        × ((stop w).1.result ≡ true)
        × ((stop w).0.running ≡ false)
        × IsSound (stop w).0
        × ((start f (start f w).0).0 ≡ (start f w).0)
        × ((start f (start f w).0).1.result ≡ false)
        × ((start f (start f w).0).1.events ≡ [])
        × ((start f (start f w).0).1.host_calls ≡ [])
        × ((stop (stop w).0).0 ≡ (stop w).0)
        × ((stop (stop w).0).1.events ≡ [])
        × ((stop (stop w).0).1.host_calls ≡ [])
  unfolding start stop
  start-stop w sound = elim (Bool-cases w.running) [
    | inl on ↦ ground (arith, on, sound)
    | inr off ↦ ground (arith, off, sound)
  ]

  -- When the range of the settings is listed, `SetModeConfig` succeeds; the scanner stands at the
  -- first channel, so that a list of channels is scanned within its bounds, whatever the index was;
  -- and the worker runs or not, with its buffer, as before.
  pub set_mode_config-InRange :
      (fuel now : ℕ) (config : ModeConfig D) (w : ReceiverWorker D) (listed : List D)
      → range_frequencies f fuel (normalize_mode_config config) ≡ some listed
      → 0 < length config.scan_list_channels
      → (r : ReceiverWorker D × Outcome D) × (set_mode_config f fuel config w ≡ some r)
        × (r.1.result ≡ true)
        × InRange r.0.mode_config (start_scan now r.0.scan_channel_idx)
        × (r.0.running ≡ w.running)
        × (r.0.audio_buffer ≡ w.audio_buffer)
  unfolding set_mode_config normalize_mode_config
  set_mode_config-InRange fuel now config w listed h some_channel =
      elim (Bool-cases (is_scan_range w.mode)) [
        | inl range ↦ rw (set_mode_config, range, h) (_, refl, refl, some_channel, refl, refl)
        | inr other ↦ rw (set_mode_config, other) (_, refl, refl, some_channel, refl, refl)
      ]
