-- ===== src/Plugins.antt =====
-- backend/src/plugin_host.cpp: the plugins and the chain from a demodulator over a decoder to a
-- postprocessor. `Fields` reads what a plugin emits, `Host` has the plugins and the names selected,
-- `Chain` the run of the chain; `Total` and `Select` have what holds of it. The loading of
-- the shared libraries is not modelled; the functions of a plugin are parameters.
pub mod Fields
pub mod Host
pub mod Chain
pub mod Total
pub mod Select
