-- ===== src/Examples.antt =====
-- The theorems at concrete inputs.
pub mod Codec
pub mod Cluster
pub mod Registry
pub mod Updates
pub mod Resolving
pub mod Graphs
pub mod Services
pub mod Bridging
pub mod Accounts
pub mod Dashboarding
pub mod Commanding
pub mod Interleaving
