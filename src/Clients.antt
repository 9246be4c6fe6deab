-- ===== src/Clients.antt =====
-- The clients of the disk server, disk_rand.c and disk_cli.c, and fs_cli.c of the filesystem server. The
-- connection of the first two is that of `Fs.Link`, with the disk server of `Disk` at its other end.
pub mod Exchanges
pub mod Rand
pub mod Cli
pub mod FsCli
pub mod Tests
