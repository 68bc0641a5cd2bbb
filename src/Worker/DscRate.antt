-- ===== src/Worker/DscRate.antt =====
-- `allow_dsc_message` of ProcessLoop in backend/src/receiver_worker.cpp: which DSC messages pass.
use multi_radio.Common.{
  ℕ, ◌+◌, ◌-◌, ◌≤◌, ◌<◌, Bool, true, false, not, ◌&&◌, ◌||◌, Option, none, some, List, [], ◌∷◌, ltb,
  leb, ◌==◌, if◌then◌else◌, suc, Bytes, codes, same, lookup,
}
use multi_radio.Types.Data.{SignalType, dsc}
use multi_radio.Plugins.Host.{PluginMessage}

pub record DscRate : Type 0 where
  pub window_start_ms : ℕ
  pub window_count : ℕ
  pub dropped_total : ℕ
  pub last_drop_log_ms : ℕ

unfoldable pub start_dsc_rate : DscRate
start_dsc_rate = record {
  window_start_ms = 0;
  window_count = 0;
  dropped_total = 0;
  last_drop_log_ms = 0;
}

abbrev pub is_dsc : SignalType → Bool
is_dsc dsc = true
is_dsc _ = false

-- The value of a field that is there passes a test.
abbrev pub has_value : (Bytes → Bool) → Option Bytes → Bool
has_value test none = false
has_value test (some value) = test value

abbrev pub one_dropped : DscRate → DscRate
one_dropped r = record r { dropped_total = r.dropped_total + 1 }

abbrev pub is_new_window : ℕ → DscRate → Bool
is_new_window now r =
    r.window_start_ms == 0 || (ltb now r.window_start_ms || leb 1000 (now - r.window_start_ms))

abbrev pub in_window : ℕ → DscRate → DscRate
in_window now r =
    if is_new_window now r then record r { window_start_ms = now; window_count = 0 } else r

-- A message over the limit, and whether the event of the rate limiter is published.
abbrev pub over_limit : ℕ → DscRate → DscRate × Bool
over_limit now r =
    if ltb (r.last_drop_log_ms + 5000) now
    then (record r { dropped_total = r.dropped_total + 1; last_drop_log_ms = now }, true)
    else (one_dropped r, false)

module _ {D : Type 0} where
  unfoldable pub is_unsound : PluginMessage D → Bool
  is_unsound msg =
      has_value (λ v. same v (codes "weak")) (lookup (codes "parse_status") msg.normalized_fields)
      || has_value (λ v. not (same v (codes "ok")))
          (lookup (codes "sequence_status") msg.normalized_fields)

  -- Whether the message passes, and the event.
  unfoldable pub allow_dsc_message : PluginMessage D → DscRate → Bool × DscRate × Bool
  allow_dsc_message msg r =
      let w = in_window msg.unix_ms r in
      if not (is_dsc msg.signal_type)
      then (true, r, false)
      else if is_unsound msg
      then (false, one_dropped r, false)
      else if leb 3 w.window_count
      then (let (dropped, event) = over_limit msg.unix_ms w in (false, dropped, event))
      else (true, record w { window_count = w.window_count + 1 }, false)

  -- The DSC messages that pass, of messages one after the other.
  unfoldable pub dsc_passed : List (PluginMessage D) → DscRate → ℕ
  dsc_passed [] r = 0
  dsc_passed (msg ∷ msgs) r =
      let (allowed, next, _) = allow_dsc_message msg r in
      let rest = dsc_passed msgs next in
      if allowed && is_dsc msg.signal_type then suc rest else rest

  -- The times of the messages do not fall, from a first to before a last.
  unfoldable pub IsWithin : ℕ → ℕ → List (PluginMessage D) → Type 0
  IsWithin first last [] = Unit
  IsWithin first last (msg ∷ msgs) =
      (first ≤ msg.unix_ms) × (msg.unix_ms < last) × IsWithin msg.unix_ms last msgs
