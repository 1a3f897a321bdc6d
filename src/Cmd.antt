-- ===== src/Cmd.antt =====
-- The programs under cmd.
pub mod Bridge
pub mod Webserver
pub mod Health
pub mod Shell
