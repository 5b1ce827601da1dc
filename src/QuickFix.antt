-- ===== src/QuickFix.antt =====
-- fix_monitor/src/quickfix_config.cpp and include/fixmon/quickfix_config.hpp: the sessions that the
-- engine's own settings file names.
pub mod Dictionary
pub mod Reader
pub mod Secrets
pub mod Stored
pub mod Overlay
pub mod Logs
pub mod Sessions
pub mod Occurs
pub mod Watched
pub mod Usable
mod Tests
