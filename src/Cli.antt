-- ===== src/Cli.antt =====
-- src/cli_commands: what the command line keeps and checks by itself.
pub mod Numerals
pub mod DiskSpace
pub mod Config
pub mod Node
pub mod Dialogue
