-- ===== src/Decision.antt =====
-- The decisions on a gameweek's result: server/src/services/resultService.js over
-- server/src/repositories/resultRepo.js, with the parts of server/src/services/resultModel.js that
-- describe a decision. One group, season and event is fixed.
pub mod Types
pub mod Explain
pub mod Repo
pub mod Transaction
pub mod Service
pub mod Shown
pub mod Chain
pub mod Runs
pub mod Commit
pub mod Finalize
pub mod Repeat
pub mod Override
pub mod Recompute
pub mod View
