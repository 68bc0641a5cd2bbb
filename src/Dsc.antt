-- ===== src/Dsc.antt =====
-- plugins/dsc_decoder.c: its words of ten bits (`Words`) and the search for their alignment (`Search`),
-- the tables of labels (`Labels`), the parts of a call (`Call`), the plugin (`Decoder`) and the laws of these.
pub mod Words
pub mod Search
pub mod Labels
pub mod Call
pub mod Sender
pub mod Collected
pub mod WordLaws
pub mod SearchLaws
pub mod Decoder
pub mod Process
pub mod Silence
pub mod Emission
pub mod Repeat
pub mod Worker
