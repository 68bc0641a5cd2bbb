-- ===== src/EventBus/Channel.antt =====
-- One channel of `EventBus` in backend/src/event_bus.cpp. The four channels run the same code at
-- four types of message, so the model is generic; `EventBus.Bus` has the four by name. The
-- indices are `size_t` and would wrap after 2 ^ 64 messages; they are taken as numbers.
use multi_radio.Common.{
  ℕ, ◌+◌, ◌-◌, Bool, Option, none, List, [], ◌∷◌, ◌++◌, ltb, if◌then◌else◌, length, get_elem?,
}

-- `receiver_events_` and `receiver_base_index_`, or those of another message type.
pub record Channel {ℓ} (A : Type ℓ) : Type ℓ where
  pub messages : List A
  pub base_index : ℕ

module _ {ℓ} {A : Type ℓ} where
  unfoldable pub empty : Channel A
  empty = record { messages = []; base_index = 0 }

  -- `while (size() > max) { pop_front(); ++base; }`.
  unfoldable pub trim : ℕ → List A → ℕ → Channel A
  trim limit [] base = record { messages = []; base_index = base }
  trim limit (x ∷ xs) base =
      let rest = trim limit xs (base + 1) in
      if ltb limit (length (x ∷ xs)) then rest else record { messages = x ∷ xs; base_index = base }

  -- `Publish…`.
  unfoldable pub publish : ℕ → Channel A → A → Channel A
  publish limit c x = trim limit (c.messages ++ (x ∷ [])) c.base_index

  -- The test `has_data` of `WaitFor…`, which first moves a cursor that fell behind.
  unfoldable pub catch_up : Channel A → ℕ → ℕ
  catch_up c cursor = if ltb cursor c.base_index then c.base_index else cursor

  unfoldable pub has_data : Channel A → ℕ → Bool
  unfolding catch_up
  has_data c cursor = ltb (catch_up c cursor) (c.base_index + length c.messages)

  -- `WaitFor…` at the moment that its wait ends, by data or by the timeout: the message, if there
  -- is one, and the new cursor. The list is indexed at `cursor - base_index`.
  unfoldable pub take_next : Channel A → ℕ → Option A × ℕ
  unfolding has_data
  take_next c cursor =
      let at = catch_up c cursor in
      if has_data c cursor then (get_elem? c.messages (at - c.base_index), at + 1) else (none, at)

  -- `AudioFrameCursorNow` and `IqFrameCursorNow`.
  unfoldable pub cursor_now : Channel A → ℕ
  cursor_now c = c.base_index + length c.messages
