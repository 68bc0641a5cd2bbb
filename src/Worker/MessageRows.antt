-- ===== src/Worker/MessageRows.antt =====
-- The statements that the messages of the plugins lead to, by way of ProcessLoop in
-- backend/src/receiver_worker.cpp and of the tracker.
use multi_radio.Common.{ℕ, Option, List, [], ◌∷◌, ◌++◌, Bytes}
use multi_radio.Types.Double.{Doubles}
use multi_radio.Plugins.Host.{PluginMessage}
use multi_radio.TrackDatabase.Store.{TrackDatabase, Statement}
use multi_radio.TrackDatabase.Rows.{IsInStep}
use multi_radio.Worker.Messages.{DecodePath, receive_message}

module _ {D : Type 0} (f : Doubles D) (distance : D → D → D → D → D) (change : D → D → D)
    (stod : Bytes → Option D) where
  IsStored : TrackDatabase D × List (Statement D) → List (Statement D) → Type 0
  IsStored stored log = IsInStep f distance change stored.0 (stored.1 ++ log)

  -- What the path remembers is in step with the statements that it stepped.
  abbrev pub IsPathInStep : DecodePath D → Type 0
  IsPathInStep s = IsInStep f distance change s.track_db s.statements

  -- Messages one after the other, each with the clock and the frequency that is tuned.
  unfoldable pub receive_messages : ℕ → List (ℕ × D × PluginMessage D) → DecodePath D → DecodePath D
  receive_messages receiver_id [] s = s
  receive_messages receiver_id ((now, tuned, msg) ∷ msgs) s =
      receive_messages receiver_id msgs
        (receive_message f distance change stod now receiver_id tuned msg s)
