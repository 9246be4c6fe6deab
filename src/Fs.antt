-- ===== src/Fs.antt =====
-- fs_server.c: the filesystem on the sectors of the disk server.
pub mod Exec
pub mod Link
pub mod Words
pub mod Layout
pub mod Dirent
pub mod State
pub mod Fat
pub mod Directory
pub mod File
pub mod Commands
pub mod Files
pub mod Protocol
pub mod Serve
pub mod Tests
