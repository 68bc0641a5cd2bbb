-- ===== src/EventBus/Bus.antt =====
-- `EventBus` of backend/src/event_bus.cpp: its four channels, under the names of its methods. A wait
-- is modelled at the moment that it ends; the notifications only end waits.
use multi_radio.Common.{ℕ, Option}
use multi_radio.Types.Data.{ReceiverEvent, DecodedMessage, AudioFrame, IqFrame}
use multi_radio.EventBus.Channel.{Channel, empty, publish, take_next, cursor_now}

pub record EventBus (D : Type 0) : Type 0 where
  pub max_messages : ℕ
  pub receiver_events : Channel (ReceiverEvent D)
  pub decoded_messages : Channel (DecodedMessage D)
  pub audio_frames : Channel (AudioFrame D)
  pub iq_frames : Channel (IqFrame D)

module _ {D : Type 0} where
  unfoldable pub make : ℕ → EventBus D
  make max_messages = record {
    max_messages = max_messages;
    receiver_events = empty;
    decoded_messages = empty;
    audio_frames = empty;
    iq_frames = empty;
  }

  unfoldable pub publish_receiver_event : EventBus D → ReceiverEvent D → EventBus D
  publish_receiver_event b event = record b {
    receiver_events = publish b.max_messages b.receiver_events event;
  }

  unfoldable pub publish_decoded_message : EventBus D → DecodedMessage D → EventBus D
  publish_decoded_message b message = record b {
    decoded_messages = publish b.max_messages b.decoded_messages message;
  }

  unfoldable pub publish_audio_frame : EventBus D → AudioFrame D → EventBus D
  publish_audio_frame b frame = record b {
    audio_frames = publish b.max_messages b.audio_frames frame;
  }

  unfoldable pub publish_iq_frame : EventBus D → IqFrame D → EventBus D
  publish_iq_frame b frame = record b { iq_frames = publish b.max_messages b.iq_frames frame }

  unfoldable pub wait_for_receiver_event : EventBus D → ℕ → Option (ReceiverEvent D) × ℕ
  wait_for_receiver_event b cursor = take_next b.receiver_events cursor

  unfoldable pub wait_for_decoded_message : EventBus D → ℕ → Option (DecodedMessage D) × ℕ
  wait_for_decoded_message b cursor = take_next b.decoded_messages cursor

  unfoldable pub wait_for_audio_frame : EventBus D → ℕ → Option (AudioFrame D) × ℕ
  wait_for_audio_frame b cursor = take_next b.audio_frames cursor

  unfoldable pub wait_for_iq_frame : EventBus D → ℕ → Option (IqFrame D) × ℕ
  wait_for_iq_frame b cursor = take_next b.iq_frames cursor

  unfoldable pub audio_frame_cursor_now : EventBus D → ℕ
  audio_frame_cursor_now b = cursor_now b.audio_frames

  unfoldable pub iq_frame_cursor_now : EventBus D → ℕ
  iq_frame_cursor_now b = cursor_now b.iq_frames
