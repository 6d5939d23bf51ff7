-- ===== src/Lib.antt =====
-- FPL Radar: the decisions of the server (server/src) that name the winner of a Fantasy Premier League
-- gameweek, and the machinery that the data passes through on its way to them.
--
-- The parts and how they interact. The sync fetches a manager's history through the FPL client, whose
-- calls pass the circuit breaker (server/src/fpl/circuitBreaker.js), are retried
-- (server/src/fpl/retry.js) and fail with classified errors (server/src/fpl/errors.js). It holds the
-- group's lease (server/src/locks/leaseLock.js), which stands on the lock documents of
-- server/src/repositories/lockRepo.js. The history is reconciled with the season total
-- (server/src/analytics/reconcile.js). A gameweek's result is computed from the reconciled rows of the
-- eligible members (eligibility.js, winner.js of server/src/analytics): the scores are ranked
-- (ranking.js) and ties broken by the group's chain of rules (tieBreakers.js), one of which reads the
-- captain's points of the effective squad (effectiveSquad.js). The event state and the
-- gate of eventState.js, which the service reads through server/src/services/resultModel.js, say when a
-- result may become final. The result service (server/src/services/resultService.js) takes the
-- decisions, each in one transaction under the group's lease that checks the history, asks a plan, and
-- writes a snapshot, an action and the pointer to it. Every decision on a result is an action in
-- a chain of hashes (server/src/audit/hashChain.js). What the sync reads is normalized
-- (server/src/sync/normalize.js) and written so that a repetition changes nothing
-- (server/src/repositories/internal/snapshotUpsert.js), under a run that is recorded
-- (server/src/repositories/syncRunRepo.js).
--
-- The files:
--   Prelude, Prelude/*: the names that all modules share; integers with the native number as
--     magnitude, lists, sorting (Array.prototype.sort is stable, so insertion sort), and Map groups.
--   Constants: server/src/analytics/constants.js.
--   TieBreak, TieBreak/Laws: server/src/analytics/tieBreakers.js. A rule is a `Key`, or `shared`.
--   Ranking, Ranking/*: server/src/analytics/ranking.js. `resolve_group` recurses on the rules left.
--   Eligibility, Eligibility/Laws: server/src/analytics/eligibility.js.
--   EventState, EventState/Laws: server/src/analytics/eventState.js. Instants are milliseconds.
--   Winner, Winner/*: server/src/analytics/winner.js. Inputs has the data, Decide the loop over the
--     rules, Table the rows; String.prototype.localeCompare is the parameter `locale_compare`. A score
--     that is null, which no reconciled row has, is a number that is not read.
--   Reconcile, Reconcile/*: server/src/analytics/reconcile.js.
--   FplError: server/src/fpl/errors.js.
--   Breaker, Breaker/*: server/src/fpl/circuitBreaker.js. `execute` awaits the request, so it is the
--     two steps `begin` and `finish`; Traces lets any number of calls overlap.
--   Retry, Retry/Laws: server/src/fpl/retry.js. The random part of a delay is the parameter `jitter`,
--     of which only is assumed that it does not exceed the ceiling it is given. The loop is bounded by
--     the attempts that are left, so it needs no fuel.
--   Lock, Lock/*: server/src/repositories/lockRepo.js and server/src/locks/leaseLock.js. A statement
--     of the repository is atomic and one step; Traces interleaves the statements of any number of
--     runs with the clock and with the index ttl_dead_leases (server/src/db/migrations/002_indexes.js).
--   EffectiveSquad, EffectiveSquad/*: server/src/analytics/effectiveSquad.js.
--   Decision, Decision/*: the decisions of server/src/services/resultService.js with the writes of
--     server/src/repositories/resultRepo.js. Types has what is stored, Explain the rest of
--     resultModel.js, Repo the three writes, Transaction `runT4`, Service the operations; Chain, Runs,
--     Commit, Finalize, Repeat, Override, Recompute and View are proofs, Shown is getResult. The inputs
--     that the service loads are an argument.
--   SyncRun, SyncRun/*: server/src/repositories/syncRunRepo.js, and the end of `runJob` of
--     server/src/sync/syncService.js. Changes has the statements as steps, Traces their sequences, Job
--     the beginning of `runJob`.
--   Upsert, Upsert/Laws: server/src/repositories/internal/snapshotUpsert.js. The content hash of a
--     document is the parameter `content_hash`.
--   Normalize, Normalize/*: server/src/sync/normalize.js, with the rules of a squad of
--     server/src/models/validation/picks.js. Events and Replay are the events of a season, Members the
--     members of a league, Live the live points and the picks, Season and Evidence the rows of a
--     manager and what they prove of the points semantics; Lookup is a lemma on maps.
--   Chips, Chips/Laws: server/src/analytics/chips.js.
--   Ownership, Ownership/*: server/src/analytics/ownership.js and the choice of squads of
--     server/src/services/ownershipModel.js. Scopes is about the loops. Shares and averages keep their denominators.
--   Transfers, Transfers/*: server/src/analytics/transfers.js. Tally is about the tallies.
--   FinalizeGate, FinalizeGate/Laws: evaluateFinalizeGate of server/src/services/resultModel.js.
--   Transfer, Transfer/Laws: sellingPrice of server/src/analytics/playerStats.js and transferCheck of
--     server/src/analytics/transfer.js, which the members' transfer simulator reads.
--   HashChain, HashChain/*: server/src/audit/hashChain.js. The content hashes of actions and snapshots
--     are the parameters `action_hash` and `snapshot_hash`.
--   Tests/*: runs of the code and the theorems at concrete inputs.
--
-- Numbers: points, totals and transfer costs are integers, ids, events and instants are natural
-- numbers; JavaScript's numbers are exact on all of them below 2 ^ 53. No definition runs on fuel.
--
-- Not modelled: the content hash of a result's inputs and the canonical JSON under it, Retry-After
-- headers, the heartbeat timer and the polling for a lease, the loading of a decision's inputs and the
-- retention of its sources, the stages of a sync and the expiry of old runs; and the parts that are
-- database queries, HTTP routes, schemas for the validation library, scripts or React pages.
pub mod Prelude
pub mod TieBreak
pub mod Constants
pub mod Eligibility
pub mod Winner
pub mod Reconcile
pub mod FplError
pub mod Breaker
pub mod Retry
pub mod Lock
pub mod EventState
pub mod Ranking
pub mod HashChain
pub mod SyncRun
pub mod Upsert
pub mod Normalize
pub mod Chips
pub mod Ownership
pub mod Transfers
pub mod Decision
pub mod Transfer
pub mod EffectiveSquad
pub mod FinalizeGate
mod Tests
