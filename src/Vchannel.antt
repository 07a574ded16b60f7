-- ===== src/Vchannel.antt =====
-- ServerExe/vchannel.c, the transport between the hooked processes, the shell and the client.
pub mod Text
pub mod Buffer
pub mod Message
pub mod Write
pub mod Open
pub mod Read
pub mod Serial
pub mod Format
pub mod Process
pub mod System
pub mod Samples
mod Tests
