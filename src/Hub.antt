-- ===== src/Hub.antt =====
-- Package hub.
pub mod Key
pub mod Endpoints
pub mod Register
pub mod State
pub mod Observers
pub mod Tracking
pub mod Updates
pub mod Watcher
pub mod Graph
pub mod Model
pub mod Rectifier
