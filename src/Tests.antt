-- ===== src/Tests.antt =====
-- Runs of the theorems at concrete data.
mod Data
mod Paths
mod Tasks
mod Queues
mod Solvers
mod Messages
mod Connections
mod Nodes
mod Dispatch
mod Initiators
mod Tables
mod Parsers
mod SatSolvers
