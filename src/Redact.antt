-- ===== src/Redact.antt =====
-- fix_monitor/src/redact.cpp and include/fixmon/redact.hpp: what counts as a secret, and how it is
-- kept out of stored text.
pub mod Keys
pub mod Tags
pub mod Prose
pub mod MaskBody
pub mod Spelling
pub mod Words
pub mod Fields
mod Tests
