-- ===== src/Tests.antt =====
-- The theorems of the audio ring, the event bus, the names and the types at concrete inputs; the
-- children have those of the other parts.
mod Data
mod Worker
mod Plugins
mod Ais
mod Manager
mod Tracker
mod Services
mod Dsc
mod Asm
mod Storage
mod Messages
use multi_radio.Names.History.{IsOrder, name_after, learn_all, fresh, learn_all_reload}
use multi_radio.Names.Roundtrip.{}
use multi_radio.Types.Names.{
  upper, signal_type_to_string, signal_type_from_string, modulation_to_string,
  modulation_from_string,
}
use multi_radio.Common.{
  lookup, ℕ, ◌≤◌, ◌≡◌, false, Option, some, List, [], ◌∷◌, arith, take, drop, Bytes, codes, refl,
  ◌++◌, ◌↔◌, ◌⊎◌, true,
}
use multi_radio.Types.Data.{SignalType, Modulation}
use multi_radio.Auth.{validate_bearer_token}
use multi_radio.Audio.Ring.{make, write, read, clear}
use multi_radio.Audio.Invariant.{IsValid, make-Shape}
use multi_radio.Audio.Queue.{contents}
use multi_radio.Audio.Refine.{Refines, write-Refines}
use multi_radio.Audio.Fifo
use multi_radio.Audio.Run.{run, run_refines}
use multi_radio.EventBus.Channel.{Channel, empty, publish, take_next, cursor_now}
use multi_radio.EventBus.Delivery.{Holds, empty-Holds, publish-Holds}
use multi_radio.EventBus.Stream.{Step, published, polled, play, opening, reader_lossless}
use multi_radio.Names.Json.{parse_flat_json, read_quoted, json_escape, quote, file_text}
use multi_radio.Names.Reload.{Writable}
use multi_radio.Names.Database
use multi_radio.Names.Fuel.{}
use multi_radio.Names.Quoting.{read_back_byte}

-- The audio ring.
abbrev three_ops : List Fifo.Op
three_ops = Fifo.Op.write (some (4 ∷ 5 ∷ [])) ∷ Fifo.Op.read false 3 ∷ Fifo.Op.clear ∷ []

run_refines_example : run (make 3) three_ops ≡ Fifo.run 3 [] three_ops
run_refines_example = run_refines 3 three_ops (omega arith)

three-IsValid : IsValid (make 3)
unfolding make
three-IsValid = record {
  shape = make-Shape 3 (omega arith);
  peak_over = omega arith;
  peak_in = omega arith;
}

abbrev four_samples : Option (List ℕ)
four_samples = some (1 ∷ 2 ∷ 3 ∷ 4 ∷ [])

filled-IsValid : IsValid (write (make 3) four_samples).1
filled-IsValid = (write-Refines (make 3) four_samples three-IsValid).1.valid

-- The event bus: two messages in a channel that keeps two, then a third.
abbrev two_messages : Channel ℕ
two_messages = publish 2 (publish 2 empty 7) 8

two_messages-Holds : Holds 2 (7 ∷ 8 ∷ []) two_messages
two_messages-Holds =
    publish-Holds 2 (7 ∷ []) (publish 2 empty 7) 8 (publish-Holds 2 [] empty 7 (empty-Holds 2))

abbrev one_reader : List (Step ℕ)
one_reader = published 7 ∷ polled ∷ published 8 ∷ polled ∷ polled ∷ []

reader_lossless_example :
    let s = play 2 opening one_reader in (s.got ≡ take s.cursor (7 ∷ 8 ∷ [])) × (s.cursor ≤ 2)
reader_lossless_example = reader_lossless 2 one_reader (omega arith)

-- The name database.
abbrev one_name : List (Bytes × Bytes)
one_name = (codes "M1", codes "Bo\nX") ∷ []

one_name-Writable : Writable one_name
unfolding read_back_byte
one_name-Writable = (
  (
    record { nonempty = refl; plain = refl; no_nul = (omega arith, (omega arith, tt)) },
    (omega arith, (omega arith, (omega arith, (omega arith, tt)))),
  ),
  tt,
)

-- A map that is visited in the order in which it was filled.
identity-IsOrder : IsOrder (λ db. db)
identity-IsOrder = record { order_distinct = λ db d. d; order_lookup = λ db k d. refl }

learn_all_reload_example :
    (m : Database.NameDatabase) × (Database.make (learn_all (λ db. db) one_name fresh).file
      ≡ some m)
    × (lookup (codes "M1") m.db ≡ name_after (some (codes "Bo\nX")))
learn_all_reload_example =
    learn_all_reload (λ db. db) one_name (codes "M1") identity-IsOrder one_name-Writable
