-- ===== src/Subgraph.antt =====
-- The subgraph's event handlers, subgraph/src/flux-swap-factory.ts and subgraph/src/flux-swap-pair.ts:
-- the entities and the host in `Entities`, the handlers in `Factory` and `Pairs`, a run over the events
-- of a chain in `Trace`.
pub mod Entities
mod Factory
mod Pairs
mod Trace
mod Steps
mod Runs
mod History
mod Counters
mod Supply
mod Ledger
mod Outsiders
mod SwapLog
mod Tests
