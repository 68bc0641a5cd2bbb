-- ===== src/Ais.antt =====
-- The plugins that decode AIS: plugins/nrzi_decoder.c (`Nrzi`, `Packing`, `Line`) and
-- plugins/ais_decoder.c: its check value (`Crc`), its framing (`Hdlc` and its laws) and its messages
-- (`Bits`, `Messages`, `StaticData`,
-- `OtherReports`, `Dispatch` and the laws of these).
pub mod Crc
pub mod Hdlc
pub mod HdlcInvariant
pub mod Stuffing
pub mod Sender
pub mod HdlcRoundtrip
pub mod Nrzi
pub mod Packing
pub mod Hex
pub mod Line
pub mod Bits
pub mod Format
pub mod Messages
pub mod StaticData
pub mod OtherReports
pub mod Dispatch
pub mod BitsLaws
pub mod Signed
pub mod Position
pub mod Report
pub mod Guards
pub mod Fields
pub mod ReportFields
pub mod EndToEnd
