-- ===== src/Fs/Tests/Handlers.antt =====
-- The handlers of fs_server.c on the small disk.
use cs4440proj3_final.Prelude.{
  some, Bytes, length, length-replicate, ℕ, ◌+◌, ◌≤◌, ◌<◌, ◌≡◌, List, [], replicate, arith,
}
use cs4440proj3_final.Fs.Exec.{ok}
use cs4440proj3_final.Fs.Link.{Link}
use cs4440proj3_final.Fs.Link.Laws.{Holds}
use cs4440proj3_final.Fs.State.{Fs, put_table}
use cs4440proj3_final.Fs.Fat.Tables.{free_from, free_count}
use cs4440proj3_final.Fs.File.{blocks_for}
use cs4440proj3_final.Fs.File.Full.{Lost}
use cs4440proj3_final.Fs.Fat.{fat_eof}
use cs4440proj3_final.Fs.Fat.Chains.{clear}
use cs4440proj3_final.Fs.File.{write_whole_file}
use cs4440proj3_final.Fs.File.Wraps.{write_whole_file-wraps}
use cs4440proj3_final.Fs.File.Roundtrip.{Replaced, write_whole_file-Replaced}
use cs4440proj3_final.Fs.Protocol.{status, file_reply}
use cs4440proj3_final.Fs.Commands.{cmd_read, cmd_write}
use cs4440proj3_final.Fs.Commands.Writing.{cmd_write-full, ready, entry, searched}
use cs4440proj3_final.Fs.Commands.Replacing.{cmd_read-cmd_write}
use cs4440proj3_final.Fs.Tests.Server.{
  notes, contents, notes_sectors, notes_server, notes-Mounted, notes-Target,
}

pub room : blocks_for 2 ≤ free_from 3 notes_server.fat.v + 0
unfolding blocks_for free_from free_count
room = omega arith

no_room : free_from 3 notes_server.fat.v + 0 < blocks_for 1000
unfolding blocks_for free_from free_count
no_room = omega arith

cmd_read-cmd_write_example :
    (s' : Fs) × (cmd_write notes contents notes_server ≡ (ok (status b'0'), s'))
    × ((cmd_read notes s').0 ≡ ok (file_reply contents))
cmd_read-cmd_write_example =
    cmd_read-cmd_write notes-Mounted notes contents notes-Target (omega arith) room

cmd_write-full_example :
    (v : List ℕ) × (l : Link) × (cmd_write notes (replicate 1000 7) notes_server
      ≡ (ok (status b'2'), record (put_table v notes_server) { link = l }))
    × Holds 10 notes_sectors l
    × Lost 3 notes_server.fat.v [] v
cmd_write-full_example = cmd_write-full notes-Mounted notes (replicate 1000 7) notes-Target no_room

write_whole_file-Replaced_example :
    Replaced 10 notes_sectors
      (entry notes-Mounted notes contents notes-Target)
      []
      contents
      (searched notes-Mounted notes contents notes-Target)
write_whole_file-Replaced_example =
    write_whole_file-Replaced 10 notes_sectors (entry notes-Mounted notes contents notes-Target) []
      contents (searched notes-Mounted notes contents notes-Target)
      (ready notes-Mounted notes contents notes-Target) (omega arith) room

-- as many bytes as a uint32_t can say
unfoldable endless : Bytes
endless = replicate 4294967295 7

length-endless : length endless ≡ 4294967295
unfolding endless
length-endless = length-replicate {A = ℕ} 4294967295 7

write_whole_file-wraps_example :
    write_whole_file notes_server.layout
      (entry notes-Mounted notes contents notes-Target)
      endless
      (searched notes-Mounted notes contents notes-Target)
    ≡ (
      ok (
          some (record (entry notes-Mounted notes contents notes-Target) {
            first = fat_eof;
            len = length endless;
          })),
      put_table (clear [] notes_server.fat.v) (searched notes-Mounted notes contents notes-Target),
    )
write_whole_file-wraps_example =
    write_whole_file-wraps endless (ready notes-Mounted notes contents notes-Target)
      (omega (arith, length-endless)) (omega (arith, length-endless))
