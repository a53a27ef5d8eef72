-- ===== src/Examples.antt =====
-- Runs of the model on concrete inputs: a codec, a replica and the inputs that the theorems apply to.
pub mod Codec
pub mod Setup
mod Quorums
mod Network
mod Recoveries
mod Stores
mod Histories
mod Monitors
mod Handlers
mod Proposals
mod Networks
mod Shares
mod Disks
