-- ===== src/Fs/Tests.antt =====
-- A small disk and a server of fs_server.c on it, and the theorems at these.
pub mod Server
pub mod Sectors
pub mod Handlers
pub mod Client
pub mod Files
