-- ===== src/Tests.antt =====
-- The theorems at concrete inputs.
pub mod Sample
pub mod Laws
pub mod Phases
pub mod Nodes
pub mod Admission
pub mod Clusters
pub mod Machines
pub mod Keys
pub mod Heads
pub mod Steps
pub mod Commits
pub mod World
pub mod Starts
pub mod Booting
