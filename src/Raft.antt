-- ===== src/Raft.antt =====
-- The Raft node of src/raft.
pub mod Message
pub mod Node
pub mod Vote
pub mod Append
pub mod Leader
pub mod Snapshot
pub mod Apply
pub mod Log
pub mod History
pub mod Ticker
