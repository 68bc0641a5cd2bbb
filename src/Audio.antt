-- ===== src/Audio.antt =====
-- backend/src/audio_ring_buffer.cpp and backend/include/multi_radio/audio_ring_buffer.hpp: the
-- ring of PCM samples between the ingest and the playback thread. The mutex makes each method one
-- step, so a method is a function from the buffer to the new buffer and its result. A sample is
-- moved and never computed with, so it is any number. `size_t` counters wrap at 2 ^ 64.
pub mod Ring
pub mod Invariant
pub mod Queue
pub mod Copy
pub mod Fifo
pub mod Refine
pub mod Run
