-- ===== src/Worker.antt =====
-- backend/src/receiver_worker.cpp: one receiver. `Config` and `Channel` have the settings and the
-- channel that they select, `Scanner` the decisions of the output thread about squelch and channel,
-- `ChainFlags` and `PluginConfig` the set-up of the plugins, `DscRate` and `Messages` what becomes of
-- their messages, and `Lifecycle` the calls of the manager.
-- The signal processing between the threads is numeric and stands outside the model.
pub mod Config
pub mod Channel
pub mod Scanner
pub mod ScannerSafety
pub mod ScannerLiveness
pub mod ChainFlags
pub mod PluginConfig
pub mod ChainNames
pub mod Lifecycle
pub mod LifecycleLaws
pub mod ScannerSquelch
pub mod DscRate
pub mod DscRateLaws
pub mod MessageFields
pub mod Messages
pub mod MessageLaws
pub mod MessageRows
