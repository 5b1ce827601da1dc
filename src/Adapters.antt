-- ===== src/Adapters.antt =====
-- fix_monitor/src/message_log_adapter.cpp and event_log_adapter.cpp: from the lines of the two logs
-- to events, and the thread of an adapter as the polls it makes one after the other.
pub mod MessageLog
pub mod EventLog
pub mod Polling
pub mod Delivered
pub mod Lifecycle
mod Tests
