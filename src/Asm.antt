-- ===== src/Asm.antt =====
-- plugins/asm_decoder.c: its fields and texts (`Format`), the messages of DAC 1 (`Weather`, `Notices`,
-- `Routes`), the binary and safety messages (`Binary`), the standard messages (`Standard`) and the
-- plugin (`Decoder`).
pub mod Format
pub mod Weather
pub mod Notices
pub mod Routes
pub mod Binary
pub mod Standard
pub mod Decoder
pub mod Guards
pub mod Fields
pub mod SharedFrames
pub mod Handoff
