-- ===== src/Consensus.antt =====
-- consensus/: the replica's handlers.
pub mod State
pub mod Status
pub mod Certificates
pub mod View
pub mod Reports
pub mod Sequence
pub mod NewLeader
pub mod Block
pub mod Propose
pub mod Recovery
pub mod Start
pub mod Dispatch
pub mod SleepTest
pub mod Network
pub mod Boot
