-- ===== src/Tests.antt =====
-- Runs of the model on small inputs, and the theorems at inputs that meet their hypotheses.
mod Samples
mod Bases
mod Decisions
mod Quorums
mod Tasks
mod Handoffs
mod Proposals
mod Validations
mod Retries
mod Thresholds
mod Wires
mod CommitmentHashes
mod Contributes
mod MultiRounds
mod Sessions
