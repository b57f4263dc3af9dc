-- ===== src/Cli.antt =====
-- src/cli: the command-line client.
pub mod Credstore
pub mod Selfupdate
