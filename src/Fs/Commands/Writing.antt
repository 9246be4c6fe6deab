-- ===== src/Fs/Commands/Writing.antt =====
-- cmd_write of fs_server.c on a formatted disk, and cmd_read after it.
use cs4440proj3_final.Prelude.{
  ℕ, ◌+◌, ◌*◌, ◌≤◌, ◌<◌, ◌≡◌, ◌≢◌, ◌∙◌, true, some, List, Bytes, length, arith, All,
}
use cs4440proj3_final.Fs.Exec.{ok, ◌>>=◌, ◌>>◌, step}
use cs4440proj3_final.Fs.Words.{u32_mod}
use cs4440proj3_final.Fs.Link.{Link}
use cs4440proj3_final.Fs.Link.Laws.{Holds}
use cs4440proj3_final.Fs.Layout.{Layout}
use cs4440proj3_final.Fs.Dirent.{Dirent}
use cs4440proj3_final.Fs.State.{Fs, put_table}
use cs4440proj3_final.Fs.Fat.{fat_load}
use cs4440proj3_final.Fs.Fat.Tables.{free_from}
use cs4440proj3_final.Fs.Fat.Chains.{Chain, Distinct}
use cs4440proj3_final.Fs.File.{blocks_for, data_start}
use cs4440proj3_final.Fs.File.Reading.{Quiet}
use cs4440proj3_final.Fs.File.Release.{Ready}
use cs4440proj3_final.Fs.File.Full.{Lost, write_whole_file-full}
use cs4440proj3_final.Fs.Directory.Entries.{entry_at}
use cs4440proj3_final.Fs.Directory.Search.{matches, IsFirst}
use cs4440proj3_final.Fs.Commands.{code, found, write_found, write_done, cmd_write}
use cs4440proj3_final.Fs.Commands.Creating.{Running, loaded_lem, handled}
use cs4440proj3_final.Fs.Commands.Reading.{find_known}

-- A running server whose table is as long as the disk and whose regions do not overlap.
pub record Mounted (n : ℕ) (g : ℕ → Bytes) (s : Fs) : Type 0 where
  pub running : Running n g s
  pub table : length s.fat.v ≡ s.layout.total_blocks
  pub on_disk : s.layout.total_blocks ≤ n
  pub fat_region : s.layout.fat_start + s.layout.fat_sectors ≤ s.layout.dir_start
  pub dir_region : s.layout.dir_entries ≤ 2 * s.layout.dir_sectors
  pub has_dir : 0 < s.layout.dir_sectors
  pub data_region : s.layout.dir_start + s.layout.dir_sectors ≤ s.layout.total_blocks

-- The file in slot `slot`, the first one of the name, with its blocks in the data area.
pub record Target (g : ℕ → Bytes) (s : Fs) (name : Bytes) : Type 0 where
  pub slot : ℕ
  pub first : IsFirst (λ j. matches name (entry_at s.layout g j)) 0 s.layout.dir_entries (some slot)
  pub old : List ℕ
  pub chain : Chain s.fat.v (entry_at s.layout g slot).first old
  pub distinct : Distinct old
  pub behind : All (λ b. data_start s.layout ≤ b) old

in_use : (e : Dirent) (name : Bytes) → matches name e ≡ true → e.used ≢ 0
in_use e name h zero_used = ground arith

module _ {n : ℕ} {g : ℕ → Bytes} {s : Fs} (m : Mounted n g s) (name bytes : Bytes)
    (t : Target g s name) where
  abbrev lay : Layout
  lay = s.layout

  abbrev pub entry : Dirent
  entry = entry_at lay g t.slot

  pub small_disk : n < u32_mod
  small_disk = m.running.holds.disk.small

  pub start_eq : data_start lay ≡ lay.dir_start + lay.dir_sectors
  start_eq = omega (arith, m.data_region, m.on_disk, small_disk)

  abbrev pub query : Quiet n g (found name) s (some (t.slot, entry))
  query = find_known name (some t.slot) m.running t.first

  abbrev pub searched : Fs
  searched = record s { link = query.end }

  pub ready : Ready n g entry t.old searched
  ready = record {
    holds = query.holds;
    table = m.table;
    fits = m.on_disk;
    start = omega (arith, start_eq, m.has_dir);
    used = in_use entry name t.first.2;
    chain = t.chain;
    distinct = t.distinct;
    behind = t.behind;
  }

  pub write_begins :
      {b : Bytes} {s' : Fs}
      → write_found bytes (some (t.slot, entry)) searched ≡ (ok b, s')
      → cmd_write name bytes s ≡ (ok b, s')
  unfolding cmd_write
  write_begins h =
      handled (code b'2') (code b'2') (fat_load >> (found name >>= write_found bytes)) s
        m.running.formatted (step _ (loaded_lem s m.running.loaded) ∙ step _ query.eq ∙ h)

  -- On a mounted server, for a name whose first entry in use has a chain in the data area, and
  -- without space for the new contents, the freed blocks of the old ones counted in, cmd_write
  -- replies with 2 and changes no sector, so the directory still points to the old chain. But the
  -- cached FAT has changed: one chain of different data blocks, as many as were free and the file had,
  -- has taken all of them; no data block is free any more, and the other entries are as before.
  pub cmd_write-full :
      free_from (data_start lay) s.fat.v + length t.old < blocks_for (length bytes)
      → (v : List ℕ) × (l : Link) × (cmd_write name bytes s
          ≡ (ok (code b'2'), record (put_table v s) { link = l }))
        × Holds n g l
        × Lost (data_start lay) s.fat.v t.old v
  unfolding write_found write_done
  cmd_write-full less =
      let (v, eq, no_room) = write_whole_file-full ready bytes less in
      (v, query.end, write_begins (step _ eq), query.holds, no_room)
