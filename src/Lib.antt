-- ===== src/Lib.antt =====
-- The verification library of the socket-based disk, filesystem and directory programs.
--
-- The programs run as a stack. disk_server.c keeps a disk of cylinders and 128-byte sectors in a
-- mapped file and serves it over a text protocol (I, R, W). fs_server.c is a client of it: it lays
-- out a superblock, a FAT and a directory on the sectors and serves named files over a second
-- protocol (F, C, D, L, R, W). fs_dirs.c is a shell with directories that are names in that flat
-- filesystem. disk_cli.c and disk_rand.c are clients of the disk server, and fs_cli.c of the
-- filesystem server. server.c reverses strings for client.c, and ls_server.c runs ls for
-- ls_client.c.
--
-- Prelude has the shared names: library names, Boolean tests, lists over the native numbers, memory
-- copies (slice, splice), integers.
-- Text has what printf and scanf do for %ld, %u and %s.
-- Net has a connection as read_exact, write_all and readline see it; Net.Syscalls has these loops
-- of disk_server.c over the results of send and recv. Net.Payload and Net.Dial are what client.c
-- and ls_client.c have in common: the line made of the arguments, and the connection, with what the
-- operating system answers (System) as a parameter.
-- Disk models disk_server.c: Server is its globals with the mapped file as a list of bytes, and
-- handle_I, handle_R, handle_W, blk_ptr, validate_cs and sleep_tracks have the names they have
-- there. Disk.Serve is client_main. Disk.Bounds, Disk.Blocks, Disk.Kept, Disk.Arm,
-- Disk.Serve.Requests and Disk.Serve.Total prove its properties.
-- Fs models fs_server.c. Fs.Exec is state with failure. Fs.Link is disk_t with the disk server of
-- Disk at its other end, with disk_connect (Connecting), disk_read_idx and disk_write_idx;
-- Fs.Link.Laws says when a connection is an array of sectors, and Fs.Link.Reading and
-- Fs.Link.Writing that the two functions work on it as such. Fs.Words, Fs.Layout and Fs.Dirent are
-- the bytes of the superblock and of directory entries. Fs.Fat, Fs.Directory and Fs.File are the
-- functions of these parts under their names in the source.
-- Fs.Commands has cmd_format to cmd_write, and Fs.Serve client_main; Fs.Protocol has the replies
-- apart from the handlers, to state what these reply. Fs.Files says when a server stands for a map
-- from names to contents, Fs.Files.Sessions what a command does to this map, and Fs.Serve.Sessions
-- the same for the text that a client sends.
-- Echo models reverse_inplace and thread_main of server.c, and Echo.Client main of client.c.
-- Ls models the child process of ls_server.c, and Ls.Copying main of ls_client.c.
-- Clients.Rand models disk_rand.c and Clients.Cli disk_cli.c, each on a connection to the disk
-- server of Disk; Clients.FsCli models fs_cli.c with the replies of the filesystem server as a
-- parameter.
-- Dirs models the path functions of fs_dirs.c, and Dirs.Shell its mkdir, cd and rmdir with the
-- replies of the filesystem server as a parameter.
-- The modules called Tests apply the theorems to small inputs.
--
-- Numbers: uint32_t arithmetic of fs_server.c is written with its wrap-around (% 2 ^ 32), size_t
-- arithmetic of disk_server.c with % 2 ^ 64. The product of the sleep of the arm, a long, is
-- written with the wrap-around of the machine. Where C has no meaning (a chain that leaves the FAT
-- or does not end, bytes of a buffer that were never set, a store behind tmp of disk_cli.c) a run
-- ends in a fault, as a value. Three accesses have no fault: store_block drops bytes outside the
-- image, and find_free_block and fat_sector take a table that is shorter than the disk as it is;
-- the theorems on them have the hypotheses that exclude this (IsSound, Mounted).
-- A recv on a connection on which nothing more will come ends in waits, also a value.
-- Fuel: the two client loops take a byte off the stream in each round, so one more than its length
-- is enough; free_chain gets one more than the length of the table, which no chain of different
-- blocks exceeds; the loops of disk_cli.c and fs_cli.c take a byte of stdin in each round;
-- read_blocks and write_blocks move at least a byte in a round. print_dec has more fuel than
-- digits. Each bound is proved by the theorems that show a result.
--
-- Broken connections between the two servers are part of the model: each exchange of a request and
-- its reply has a fate. The theorems that speak of a connection that holds sectors are about one on
-- which nothing breaks.
--
-- Not modelled: socket set-up, accept loops and signal handlers, which are operating-system calls;
-- a malloc that fails; several clients at the same time, where the mutexes make each handler one
-- step; the fork of ls_server.c; the prompt of fs_dirs.c.
pub mod Prelude
pub mod Text
pub mod Net
pub mod Disk
pub mod Fs
pub mod Echo
pub mod Dirs
pub mod Ls
pub mod Clients
