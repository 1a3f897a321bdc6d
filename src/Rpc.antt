-- ===== src/Rpc.antt =====
-- Package rpc.
pub mod Server
