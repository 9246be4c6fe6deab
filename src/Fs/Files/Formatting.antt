-- ===== src/Fs/Files/Formatting.antt =====
-- cmd_format of fs_server.c: afterwards the server has no files.
use mathlib.Core.Bool.{false≢true}
use cs4440proj3_final.Prelude.{
  ℕ, ◌+◌, ◌-◌, ◌*◌, ◌^◌, ◌≤◌, ◌<◌, ◌≡◌, refl, ap, sym, ◌∙◌, true, false, none, List, [], Bytes,
  replicate, splice, min, ◌==◌, arith, length-replicate, length-splice,
}
use cs4440proj3_final.Fs.Exec.{ok, Runs, step}
use cs4440proj3_final.Fs.Link.{disk_write_idx}
use cs4440proj3_final.Fs.Link.Laws.{Holds, update}
use cs4440proj3_final.Fs.Link.Writing.{disk_write_idx_lem}
use cs4440proj3_final.Fs.Layout.{Layout, Geometry, compute_layout, super_pack}
use cs4440proj3_final.Fs.Layout.Packing.{length-super_pack}
use cs4440proj3_final.Fs.Layout.Regions.{IsLaidOut, compute_layout-IsLaidOut}
use cs4440proj3_final.Fs.Dirent.{Dirent}
use cs4440proj3_final.Fs.State.{Fs, on_link_lem}
use cs4440proj3_final.Fs.Fat.{fat_reserved, fat_load, fat_flush}
use cs4440proj3_final.Fs.Fat.Flushing.{entry_of, Flushed, fat_flush-Flushed}
use cs4440proj3_final.Fs.Fat.Loading.{fat_load_lem}
use cs4440proj3_final.Fs.Directory.{slot_sector}
use cs4440proj3_final.Fs.Directory.Entries.{entry_at, slot_sector-lt}
use cs4440proj3_final.Fs.Directory.Search.{matches}
use cs4440proj3_final.Fs.Protocol.{status}
use cs4440proj3_final.Fs.Commands.{
  code, reply_of, geometry, clear_sectors, meta_end, reserve, format_fs, cmd_format,
}
use cs4440proj3_final.Fs.Commands.Writing.{Mounted}
use cs4440proj3_final.Fs.Files.{Stands}
use cs4440proj3_final.Fs.Files.Clearing.{
  Cleared, clear_sectors-Cleared, zeros-AllSmall, fat_sector-zeros, zeros-unused,
}

-- The directory always has 32 sectors.
directory_lem : (d : Geometry) → (compute_layout d).dir_sectors ≡ 32
unfolding compute_layout
directory_lem d = refl

-- A directory in which no entry is in use has no files.
unused-Stands :
    {n : ℕ} {s : Fs} (g : ℕ → Bytes)
    → Mounted n g s
    → ((i : ℕ) → i < s.layout.dir_entries → ((entry_at s.layout g i).used == 0) ≡ true)
    → Stands n (λ name. none) s
unused-Stands {n} {s} g m unused = record {
  g = g;
  consistent = record {
    mounted = m;
    blocks = λ i. [];
    bytes = λ i. [];
    held = λ i u. absurd (false≢true (sym u.1 ∙ unused i u.0));
    apart = λ i j u w ne. absurd (false≢true (sym u.1 ∙ unused i u.0));
    unique = λ name i j valid h k.
        absurd (false≢true (sym (no_match name (entry_at s.layout g i) (unused i h.0)) ∙ h.1));
  };
  agrees = λ name valid j lt. no_match name (entry_at s.layout g j) (unused j lt);
}
  where
    no_match : (name : Bytes) (e : Dirent) → (e.used == 0) ≡ true → matches name e ≡ false
    no_match name e h = ground arith

module _ (n : ℕ) (g : ℕ → Bytes) (s : Fs) (h : Holds n g s.link) (small : n ≤ 2 ^ 30 - 32)
    (large : 35 ≤ n) where
  abbrev l : Layout
  l = compute_layout (geometry s)

  size : (geometry s).cyl * (geometry s).sec ≡ n
  size = ap (λ k. k.cyl * k.sec) h.rest ∙ h.disk.size

  laid : IsLaidOut (geometry s) l
  laid = compute_layout-IsLaidOut (geometry s) (omega (arith, size))

  total_lem : l.total_blocks ≡ n
  total_lem = laid.blocks ∙ size

  table_fits : l.fat_start + l.fat_sectors ≤ n
  table_fits = omega (arith, total_lem, laid.fat, laid.needed)

  regions : l.dir_start + l.dir_sectors ≤ n
  regions = omega (arith, total_lem, laid.fat, laid.needed, laid.dir, directory_lem (geometry s))

  abbrev bare : Fs
  bare = record s { layout = l; fat = record { v = []; loaded = false } }

  abbrev superblock : Bytes
  superblock = super_pack (geometry s) l

  with_super : Runs (disk_write_idx 0 superblock) s.link tt (Holds n (update g 0 superblock))
  with_super = disk_write_idx_lem 0 superblock h (omega arith) (length-super_pack (geometry s) l)

  abbrev s2 : Fs
  s2 = record bare { link = with_super.end }

  no_table :
      Cleared n
        (update g 0 superblock)
        l.fat_sectors
        l.fat_start
        (clear_sectors l.fat_sectors l.fat_start)
        s2
  no_table =
      clear_sectors-Cleared n (update g 0 superblock) l.fat_sectors l.fat_start s2 with_super.post
        table_fits

  abbrev free_table : List ℕ
  free_table = replicate l.total_blocks 0

  empty_table :
      Runs fat_load
        (record s2 { link = no_table.end })
        tt
        (λ s'.
          (s' ≡ record s2 { link = s'.link; fat = record { v = free_table; loaded = true } })
          × Holds n no_table.sectors s'.link)
  empty_table =
      fat_load_lem n no_table.sectors no_table.end s2 free_table no_table.holds
        (length-replicate {A = ℕ} l.total_blocks 0) (zeros-AllSmall l.total_blocks) table_fits
        laid.enough
        (λ j lt.
          no_table.here (l.fat_start + j) (omega arith) (omega arith)
          ∙ sym (fat_sector-zeros l l.total_blocks (entry_of l j)))

  abbrev table : List ℕ
  table = splice 0 (replicate (min (meta_end l + 1) l.total_blocks) fat_reserved) free_table

  abbrev s5 : Fs
  s5 = record s2 { link = empty_table.end.link; fat = record { v = table; loaded = true } }

  written_table : Flushed n no_table.sectors l table 0 l.fat_sectors fat_flush s5
  written_table = fat_flush-Flushed n no_table.sectors s5 empty_table.post.1 refl table_fits

  no_names :
      Cleared n written_table.sectors l.dir_sectors l.dir_start
        (clear_sectors l.dir_sectors l.dir_start)
        (record s5 { link = written_table.end })
  no_names =
      clear_sectors-Cleared n written_table.sectors l.dir_sectors l.dir_start
        (record s5 { link = written_table.end }) written_table.holds regions

  abbrev formatted : Fs
  formatted = record s5 { link = no_names.end; formatted = true }

  format_fs_lem : format_fs l (geometry s) bare ≡ (ok tt, record s5 { link = no_names.end })
  unfolding format_fs reserve
  format_fs_lem =
      step _ (on_link_lem bare with_super)
      ∙ step _ no_table.eq
      ∙ step _ (empty_table.eq ∙ ap (λ s. (ok tt, s)) empty_table.post.0)
      ∙ step _ written_table.eq
      ∙ no_names.eq

  format_runs : cmd_format s ≡ (ok (code b'0'), formatted)
  unfolding cmd_format
  format_runs = ap (λ p. (reply_of (code b'2') p.0, p.1)) (step _ format_fs_lem)

  formatted-Mounted : Mounted n no_names.sectors formatted
  formatted-Mounted = record {
    running = record {
      holds = no_names.holds;
      formatted = refl;
      loaded = refl;
      fits = omega (arith, regions, laid.entries);
    };
    table =
        length-splice 0 (replicate (min (meta_end l + 1) l.total_blocks) fat_reserved) free_table
        ∙ length-replicate {A = ℕ} l.total_blocks 0;
    on_disk = omega (arith, total_lem);
    fat_region = omega (arith, laid.dir);
    dir_region = omega (arith, laid.entries);
    has_dir = omega (arith, directory_lem (geometry s));
    data_region = omega (arith, regions, total_lem);
  }

  -- On a connection that holds the sectors of a disk of 35 to 2 ^ 30 - 32 blocks, cmd_format replies
  -- with 0, and then the server stands for the empty map.
  pub cmd_format-Stands :
      (s' : Fs) × (cmd_format s ≡ (ok (status b'0'), s')) × Stands n (λ name. none) s'
  cmd_format-Stands = (
    formatted,
    format_runs,
    unused-Stands no_names.sectors formatted-Mounted (λ i lt.
        let (at, in_disk) = slot_sector-lt n l i formatted-Mounted.running.fits h.disk.small lt in
        zeros-unused l no_names.sectors i
          (no_names.here (slot_sector l i) (omega arith) (omega (arith, laid.entries)))),
  )
