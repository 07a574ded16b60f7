-- ===== src/Shell.antt =====
-- ServerExe/main.c, the shell: it carries out the client's commands and decides when the session ends.
pub mod Escape
pub mod Tokens
pub mod Number
pub mod Command
pub mod Request
pub mod Session
pub mod Sync
pub mod Print
pub mod Input
pub mod Launch
pub mod Box
pub mod Main
mod Tests
