-- ===== src/Clients/Rand/Whole.antt =====
-- disk_rand.c from its query to its end, against a disk server that holds sectors.
use cs4440proj3_final.Fs.Link.{Link}
use cs4440proj3_final.Fs.Link.Laws.{Disk}
use cs4440proj3_final.Clients.Rand.{Rand}
use cs4440proj3_final.Clients.Rand.Steady.{Steady}
