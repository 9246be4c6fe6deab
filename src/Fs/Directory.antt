-- ===== src/Fs/Directory.antt =====
-- The directory of fs_server.c: two entries to a sector, searched from the first one on.
pub mod Entries
pub mod Search
use cs4440proj3_final.Prelude.{
  ℕ, zero, suc, ◌+◌, ◌*◌, ◌/◌, ◌%◌, not, ◌&&◌, Option, none, some, Bytes, splice, drop, ◌==◌,
  if◌then◌else◌,
}
use cs4440proj3_final.Fs.Exec.{Exec, pure, ◌>>=◌, ◌>>◌}
use cs4440proj3_final.Fs.Words.{u32_mod}
use cs4440proj3_final.Fs.Link.{disk_read_idx, disk_write_idx}
use cs4440proj3_final.Fs.Layout.{Layout}
use cs4440proj3_final.Fs.Dirent.{Dirent, max_name, dirent_pack, dirent_unpack, strncmp_eq}
use cs4440proj3_final.Fs.State.{Fs, on_link}

abbrev pub slot_sector : Layout → ℕ → ℕ
slot_sector l slot = (l.dir_start + slot / 2) % u32_mod

abbrev pub slot_offset : ℕ → ℕ
slot_offset slot = slot % 2 * 64

unfoldable pub dir_read_entry : Layout → ℕ → Exec Fs Dirent
dir_read_entry l slot = do
  blk ← on_link (disk_read_idx (slot_sector l slot))
  pure (dirent_unpack (drop (slot_offset slot) blk))

unfoldable pub dir_write_entry : Layout → ℕ → Dirent → Exec Fs (Unit {0})
dir_write_entry l slot e = do
  blk ← on_link (disk_read_idx (slot_sector l slot))
  on_link (disk_write_idx (slot_sector l slot) (splice (slot_offset slot) (dirent_pack e) blk))

-- The search from slot `i` on, with `k` slots to go; `none` is the result 1.
unfoldable pub find_name : Layout → Bytes → ℕ → ℕ → Exec Fs (Option (ℕ × Dirent))
find_name l name zero i = pure none
find_name l name (suc k) i = do
  e ← dir_read_entry l i
  let more = find_name l name k (i + 1)
  if not (e.used == 0) && strncmp_eq max_name e.name name then pure (some (i, e)) else more

unfoldable pub dir_find_by_name : Layout → Bytes → Exec Fs (Option (ℕ × Dirent))
dir_find_by_name l name = find_name l name l.dir_entries 0

unfoldable pub find_unused : Layout → ℕ → ℕ → Exec Fs (Option ℕ)
find_unused l zero i = pure none
find_unused l (suc k) i = do
  e ← dir_read_entry l i
  let more = find_unused l k (i + 1)
  if e.used == 0 then pure (some i) else more

unfoldable pub dir_find_free : Layout → Exec Fs (Option ℕ)
dir_find_free l = find_unused l l.dir_entries 0
