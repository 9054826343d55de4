-- ===== src/Telemetry.antt =====
-- core/telemetry: the logger, and the settings of the process.
pub mod Logger
pub mod Globals
