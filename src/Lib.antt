-- ===== src/Lib.antt =====
-- multi_radio: a model of the backend of a multi-receiver radio server, with what makes its parts
-- correct.
--
-- The backend (backend/src, backend/include/multi_radio) runs one worker per receiver. A worker
-- ingests samples, demodulates them or passes them to a chain of plugins, moves over the channels
-- of its mode, and streams audio through a ring buffer. What it finds goes to an event bus that
-- the services read, and the names learnt go to a small file. The files:
--
--   Common        tests, lists, texts and tables that the components share.
--   Types         backend/include/multi_radio/types.hpp and backend/src/types.cpp. `Types.Double` is
--                 the interface of the operations on `double`, which are parameters.
--   Audio         backend/src/audio_ring_buffer.cpp. `Ring` has the operations (`write` is Write,
--                 `read` Read, ...), `Fifo` the bounded queue that a client may rely on.
--   EventBus      backend/src/event_bus.cpp. `Channel` is one of the four channels at any type of
--                 message, `Bus` the four by name, `Stream` a reader beside publishers.
--   Names         backend/src/name_database.cpp. `Json` has the escaping and the reader, `Database`
--                 the calls, the file being the text last saved or none.
--   Worker        backend/src/receiver_worker.cpp. `Config` and `Channel` have the settings and the
--                 channel they select, `Scanner` the squelch and channel decisions of RunLoop,
--                 `ChainFlags` and `PluginConfig` the set-up of the plugins, `Lifecycle` the calls of
--                 the manager (`start` is Start, ...). `DscRate` is allow_dsc_message of ProcessLoop,
--                 `MessageFields` and `Messages` the rest of its callbacks. The other modules have
--                 what holds of these.
--   Plugins       backend/src/plugin_host.cpp. `Fields` reads what a plugin emits, `Host` has the
--                 plugins and the selection, `Chain` ProcessIq and EmitFromPlugin.
--   Manager       backend/src/receiver_manager.cpp. `Calls` has the calls on the list of the workers.
--   Tracker       backend/src/target_tracker.cpp. `Target` has the entries and what a message writes
--                 into one, `Calls` Update, LearnLabel and TakeSnapshot.
--   Services      backend/src/grpc_services.cpp. `Convert` has FromProto and ToProto, `Server`
--                 and `Control` the state and the handlers of the control service; `save` is the
--                 write of hardware.conf.
--   Ais           plugins/nrzi_decoder.c and plugins/ais_decoder.c. `Nrzi` is the line decoder, `Crc`
--                 and `Hdlc` the check value and the framing, `Bits`, `Format`, `Messages`,
--                 `StaticData` and `OtherReports` the fields of the messages and their texts,
--                 `Dispatch` decode_and_emit. `Sender` and `Position` are what is sent; `Line` and
--                 `EndToEnd` put the two plugins one behind the other.
--   Asm           plugins/asm_decoder.c. `Weather`, `Notices` and `Routes` have the messages of DAC 1,
--                 `Binary` the messages 6, 8, 12 and 14, `Standard` those that ais_decoder has too,
--                 `Decoder` dispatch_frame, the handoff and the framing of `Ais.Hdlc`.
--   Dsc           plugins/dsc_decoder.c. `Words` has its words, `Search` the search for their
--                 alignment, `Labels` its tables, `Call` the parts of a call, `Decoder` the context
--                 and set_param, `Process` process_bits. `Sender` is what is sent, `Worker` the
--                 decoder with the settings of the worker.
--   EventLog      backend/src/jsonl_logger.cpp. `Lines` has EventToJson and MessageToJson, `Logger` the
--                 files with EnsureOpen and RotateIfNeeded; `Reading` is a reader of JSON texts.
--   TrackDatabase backend/src/track_database.cpp. `Store` has the two maps in memory and the statements
--                 that each call steps (`store_entity` is UpsertEntity, `store_position`
--                 RecordPosition, ...), which are values: SQLite may refuse one. `Tables` has
--                 SQLite as a parameter, with what is documented of the foreign key of the tracks.
--   Auth          backend/src/auth.cpp.
--   Tests         the theorems at concrete inputs.
--
-- Each operation of the ring, the bus, the names and the plugin host takes the lock of its object
-- for the whole of its body, so a call is one step and an interleaving is a sequence of calls; a
-- call on a worker is taken as one step too, though it publishes its events after it gives the
-- lock back. A map of the source is a list of pairs whose keys are distinct; the order of an
-- unordered map is the order of the list, but for `Names.Database.save`, where it is an argument. Fields of 32 and 64 bits are numbers, and `size_t` is
-- wrapped in `Audio.Ring`, where the indices are computed. Fuel is used by the digits of a number
-- (twenty are enough for 64 bits) and by `parse_flat_json`, whose fuel is the length of the text
-- and one more: each round of the loop moves past a byte. The fields of a plugin's message are
-- read with the same fuel, and the chain of plugins with fuel 3, one for each stage. The loop over
-- a frequency range takes its fuel as an argument, since the operations on `double` are
-- parameters. A read past the end of a list is `none`.
--
-- Functions of the plugins act on a memory of their own, a parameter, and what `sscanf` reads of a
-- hexadecimal text is a parameter too. So are what `atoi` and `strtol` read, what a stream writes of
-- a `double`, and the distance of two positions. The files of the event log do what they are asked.
--
-- A call of the manager finds the first worker with an id and puts it back in its place after the
-- call. The numbers that the AIS plugin prints are decimal roundings of quotients of integers,
-- which are written out.
--
-- Outside the model: the numeric signal processing, the radio hardware, the demodulators and
-- the other plugins, SQLite and the queries over it, the streams of the services, the generated
-- protocol code, and the Qt front end.
pub mod Common
pub mod Types
pub mod Asm
pub mod Audio
pub mod Dsc
pub mod EventBus
pub mod EventLog
pub mod Names
pub mod Ais
pub mod Manager
pub mod TrackDatabase
pub mod Tracker
pub mod Services
pub mod Auth
pub mod Plugins
pub mod Worker
pub mod Tests
