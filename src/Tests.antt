-- ===== src/Tests.antt =====
-- The theorems at concrete inputs, and runs of the code. No other module uses these.
mod Results
mod Events
mod Points
mod Calls
mod Locks
mod Chain
mod Gate
mod Squad
mod Trade
mod Decisions
mod Sync
mod Chips
mod Views
