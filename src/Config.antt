-- ===== src/Config.antt =====
-- fix_monitor/src/config.cpp and include/fixmon/config.hpp: the values of a session's
-- configuration, what is derived from them, and how two sources are merged.
pub mod Session
pub mod Values
pub mod Policy
pub mod Merge
pub mod Load
pub mod Import
pub mod Explicit
mod Tests
