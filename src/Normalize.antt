-- ===== src/Normalize.antt =====
-- server/src/sync/normalize.js: what the responses of FPL become. Dates are their epoch milliseconds.
pub mod Events
pub mod Lookup
pub mod Replay
pub mod Season
pub mod Evidence
pub mod Members
pub mod Live
