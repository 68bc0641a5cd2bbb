-- ===== src/Worker/DscRateLaws.antt =====
-- How many DSC messages the rate limit of ProcessLoop in backend/src/receiver_worker.cpp lets pass.
use multi_radio.Common.{
  ℕ, suc, ◌+◌, ◌≤◌, ◌<◌, ◌≡◌, refl, ◌⊎◌, inl, inr, Bool, true, false, ◌&&◌, List, [], ◌∷◌, arith,
  leb, ltb, if◌then◌else◌, Bool-cases,
}
use multi_radio.Plugins.Host.{PluginMessage}
use multi_radio.Worker.DscRate.{
  DscRate, is_dsc, is_unsound, is_new_window, over_limit, allow_dsc_message, dsc_passed, IsWithin,
}

over_limit-window :
    (now : ℕ) (r : DscRate)
    → ((over_limit now r).0.window_start_ms ≡ r.window_start_ms)
      × ((over_limit now r).0.window_count ≡ r.window_count)
over_limit-window now r = elim (Bool-cases (ltb (r.last_drop_log_ms + 5000) now)) [
  | inl e ↦ rw (e) (refl, refl)
  | inr e ↦ rw (e) (refl, refl)
]

-- The outcome of one message: whether it passes, the state behind it and the event.
abbrev pub Outcome : Type 0
Outcome = Bool × DscRate × Bool

module _ {D : Type 0} where
  -- A message counts if it passes as a DSC message.
  abbrev pub counts : PluginMessage D → Outcome → Bool
  counts msg o = o.0 && is_dsc msg.signal_type

  unfoldable pub IsKept : PluginMessage D → DscRate → Outcome → Type 0
  IsKept msg r o =
      (counts msg o ≡ false)
      × (o.1.window_start_ms ≡ r.window_start_ms)
      × (o.1.window_count ≡ r.window_count)

  unfoldable pub IsOpened : PluginMessage D → DscRate → Outcome → Type 0
  IsOpened msg r o =
      (counts msg o ≡ true)
      × (is_new_window msg.unix_ms r ≡ true)
      × (o.1.window_start_ms ≡ msg.unix_ms)
      × (o.1.window_count ≡ 1)

  unfoldable pub IsCounted : PluginMessage D → DscRate → Outcome → Type 0
  IsCounted msg r o =
      (counts msg o ≡ true)
      × (r.window_count < 3)
      × (o.1.window_start_ms ≡ r.window_start_ms)
      × (o.1.window_count ≡ r.window_count + 1)

  allow-step :
      (msg : PluginMessage D) (r : DscRate)
      → let o = allow_dsc_message msg r in IsKept msg r o ⊎ (IsOpened msg r o ⊎ IsCounted msg r o)
  unfolding IsKept IsOpened IsCounted allow_dsc_message
  allow-step msg r = elim (Bool-cases (is_dsc msg.signal_type)) [
    | inr other ↦ rw (other) (inl (refl, refl, refl))
    | inl of_dsc ↦ elim (Bool-cases (is_unsound msg)) [
      | inl unsound ↦ rw (of_dsc, unsound) (inl (refl, refl, refl))
      | inr sound ↦ elim (Bool-cases (is_new_window msg.unix_ms r)) [
        | inl fresh ↦ rw (of_dsc, sound, fresh) (inr (inl (refl, refl, refl, refl)))
        | inr same_window ↦ elim (Bool-cases (leb 3 r.window_count)) [
          | inl full ↦
              rw (of_dsc, sound, same_window, full)
                (inl
                  (refl, (over_limit-window msg.unix_ms r).0, (over_limit-window msg.unix_ms r).1))
          | inr room ↦
              rw (of_dsc, sound, same_window, room)
                (inr (inr (refl, ground (arith, room), refl, refl)))
        ]
      ]
    ]
  ]

  dsc_passed-next :
      (msg : PluginMessage D) (msgs : List (PluginMessage D)) (r : DscRate) (c : Bool)
      → counts msg (allow_dsc_message msg r) ≡ c
      → dsc_passed (msg ∷ msgs) r ≡ (
          if c
          then suc (dsc_passed msgs (allow_dsc_message msg r).1)
          else dsc_passed msgs (allow_dsc_message msg r).1)
  unfolding dsc_passed
  dsc_passed-next msg msgs r c e = rw (e) refl

  -- While the window of the state is open.
  dsc_passed-window :
      (msgs : List (PluginMessage D)) (r : DscRate) (first last : ℕ)
      → 0 < r.window_start_ms
      → r.window_start_ms ≤ first
      → last ≤ r.window_start_ms + 1000
      → r.window_count ≤ 3
      → IsWithin first last msgs
      → dsc_passed msgs r + r.window_count ≤ 3
  unfolding IsKept IsOpened IsCounted IsWithin dsc_passed
  dsc_passed-window [] r first last begun from to few within = omega (arith, few)
  dsc_passed-window (msg ∷ msgs) r first last begun from to few (after, before, within) =
      elim (allow-step msg r) [
        | inl (c, start, count) ↦
            let rest =
              dsc_passed-window msgs (allow_dsc_message msg r).1 msg.unix_ms last
                (omega (arith, begun, start)) (omega (arith, start, from, after))
                (omega (arith, start, to)) (omega (arith, count, few)) within in
            omega (arith, rest, count, dsc_passed-next msg msgs r false c)
        | inr (inl (c, fresh, _, _)) ↦
            absurd (ground (arith, fresh, begun, from, to, after, before))
        | inr (inr (c, room, start, count)) ↦
            let rest =
              dsc_passed-window msgs (allow_dsc_message msg r).1 msg.unix_ms last
                (omega (arith, begun, start)) (omega (arith, start, from, after))
                (omega (arith, start, to)) (omega (arith, count, room)) within in
            omega (arith, rest, count, dsc_passed-next msg msgs r true c)
      ]

  -- In any second at most six DSC messages pass, whatever the state of the rate limit was before, if
  -- it has counted three at most, and the times of the messages are above zero and do not fall.
  pub dsc_passed-at_most_six :
      (msgs : List (PluginMessage D)) (r : DscRate) (first last : ℕ)
      → 0 < first
      → last ≤ first + 1000
      → r.window_count ≤ 3
      → IsWithin first last msgs
      → dsc_passed msgs r + r.window_count ≤ 6
  unfolding IsKept IsOpened IsCounted IsWithin dsc_passed
  dsc_passed-at_most_six [] r first last begun to few within = omega (arith, few)
  dsc_passed-at_most_six (msg ∷ msgs) r first last begun to few (after, before, within) =
      let next = (allow_dsc_message msg r).1 in
      let on_time : 0 < msg.unix_ms = omega (arith, begun, after) in
      let in_time : last ≤ msg.unix_ms + 1000 = omega (arith, to, after) in
      elim (allow-step msg r) [
        | inl (c, _, count) ↦
            let rest =
              dsc_passed-at_most_six msgs next msg.unix_ms last on_time in_time
                (omega (arith, count, few)) within in
            omega (arith, rest, count, dsc_passed-next msg msgs r false c)
        | inr (inl (c, _, start, count)) ↦
            let rest =
              dsc_passed-window msgs next msg.unix_ms last (omega (arith, on_time, start))
                (omega (arith, start)) (omega (arith, start, in_time)) (omega (arith, count))
                within in
            omega (arith, rest, count, few, dsc_passed-next msg msgs r true c)
        | inr (inr (c, room, _, count)) ↦
            let rest =
              dsc_passed-at_most_six msgs next msg.unix_ms last on_time in_time
                (omega (arith, count, room)) within in
            omega (arith, rest, count, dsc_passed-next msg msgs r true c)
      ]
