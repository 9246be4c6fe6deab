-- ===== src/Fs/Tests/Sectors.antt =====
-- Sectors, the FAT, the directory and the layout of fs_server.c on small inputs.
use cs4440proj3_final.Prelude.{
  ℕ, ◌^◌, ◌≤◌, ◌≡◌, refl, true, some, List, [], ◌∷◌, replicate, arith, length-replicate,
}
use cs4440proj3_final.Fs.Exec.{ok, Runs}
use cs4440proj3_final.Fs.Link.{Link, disk_read_idx, disk_write_idx}
use cs4440proj3_final.Fs.Link.Laws.{Holds, at_rest, update}
use cs4440proj3_final.Fs.Link.Reading.{disk_read_idx_lem}
use cs4440proj3_final.Fs.Link.Writing.{disk_write_idx_lem}
use cs4440proj3_final.Fs.Layout.{Geometry, compute_layout, super_pack, super_load}
use cs4440proj3_final.Fs.Layout.Packing.{super_load-super_pack}
use cs4440proj3_final.Fs.Layout.Regions.{IsLaidOut, compute_layout-IsLaidOut, compute_layout-wraps}
use cs4440proj3_final.Fs.Fat.{fat_eof, fat_load, fat_flush, free_chain, alloc_loop}
use cs4440proj3_final.Fs.Fat.Tables.{free_from, free_count}
use cs4440proj3_final.Fs.Fat.Chains.{Freed, free_chain_lem}
use cs4440proj3_final.Fs.Fat.Allocation.{Allocated, empty, alloc_loop-Allocated}
use cs4440proj3_final.Fs.Fat.Loading.{uncached, fat_load-fat_flush}
use cs4440proj3_final.Fs.Directory.{dir_write_entry}
use cs4440proj3_final.Fs.Directory.Entries.{PutEntry, dir_write_entry-PutEntry}
use cs4440proj3_final.Fs.Commands.{new_entry}
use cs4440proj3_final.Fs.Commands.Creating.{new_entry-IsPackable}
use cs4440proj3_final.Fs.Tests.Server.{
  blank_disk, blank_sectors, blank-Holds, small_layout, blank_server, fresh_table, notes,
}

disk_read_idx_lem_example :
    Runs (disk_read_idx 7) (at_rest blank_disk) (blank_sectors 7) (Holds 10 blank_sectors)
disk_read_idx_lem_example = disk_read_idx_lem 7 blank-Holds (omega arith)

disk_write_idx_lem_example :
    Runs
      (disk_write_idx 7 (replicate 128 9))
      (at_rest blank_disk)
      tt
      (Holds 10 (update blank_sectors 7 (replicate 128 9)))
disk_write_idx_lem_example =
    disk_write_idx_lem 7 (replicate 128 9) blank-Holds (omega arith)
      (length-replicate {A = ℕ} 128 9)

dir_write_entry-PutEntry_example :
    PutEntry 10 blank_sectors small_layout 1
      (new_entry notes)
      (dir_write_entry small_layout 1 (new_entry notes))
      blank_server
      tt
dir_write_entry-PutEntry_example =
    dir_write_entry-PutEntry 10 blank_sectors small_layout 1 (new_entry notes) (omega arith)
      (omega arith) (omega arith) blank_server blank-Holds (new_entry-IsPackable notes)

fat_load-fat_flush_example :
    (l1 l2 : Link) × (fat_flush blank_server ≡ (ok tt, record blank_server { link = l1 }))
    × (fat_load (uncached l1 blank_server) ≡ (
      ok tt,
      record blank_server { link = l2; fat = record { v = fresh_table; loaded = true } },
    ))
fat_load-fat_flush_example =
    fat_load-fat_flush 10 blank_sectors blank_server blank-Holds refl refl
      (
        omega arith,
        (
          omega arith,
          (
            omega arith,
            (
              omega arith,
              (
                omega arith,
                (omega arith, (omega arith, (omega arith, (omega arith, (omega arith, tt))))),
              ),
            ),
          ),
        ),
      )
      (omega arith) (omega arith)

-- a table in which blocks 3, 5 and 4 make up a file
abbrev chained : List ℕ
chained = 9 ∷ 9 ∷ 9 ∷ 5 ∷ fat_eof ∷ 4 ∷ 0 ∷ 0 ∷ []

free_chain_lem_example :
    (v' : List ℕ) × (free_chain 9 3 chained ≡ some v') × Freed chained (3 ∷ 5 ∷ 4 ∷ []) v'
free_chain_lem_example =
    free_chain_lem chained 3 (3 ∷ 5 ∷ 4 ∷ [])
      (
        refl,
        omega arith,
        5,
        refl,
        (refl, omega arith, 4, refl, (refl, omega arith, fat_eof, refl, refl)),
      )
      ((omega arith, (omega arith, tt)), ((omega arith, tt), (tt, tt)))
      (omega arith, (omega arith, (omega arith, tt)))

two_free : 2 ≤ free_from 3 chained
unfolding free_from free_count
two_free = omega arith

alloc_loop-Allocated_example :
    (head : ℕ) × (bs v' : List ℕ) × (alloc_loop 8 3 2 fat_eof (empty 3 (omega arith) chained)
      ≡ (some head, v'))
    × Allocated 3 (omega arith) chained 2 head bs v'
alloc_loop-Allocated_example = alloc_loop-Allocated 3 (omega arith) 2 chained (omega arith) two_free

abbrev two_by_five : Geometry
two_by_five = record { cyl = 2; sec = 5 }

super_load-super_pack_example :
    super_load (super_pack two_by_five small_layout) ≡ some (two_by_five, small_layout)
super_load-super_pack_example = super_load-super_pack two_by_five small_layout (record {
  cyl = omega arith;
  sec = omega arith;
  total_blocks = omega arith;
  fat_start = omega arith;
  fat_sectors = omega arith;
  dir_start = omega arith;
  dir_sectors = omega arith;
  dir_entries = omega arith;
})

compute_layout-IsLaidOut_example : IsLaidOut two_by_five (compute_layout two_by_five)
compute_layout-IsLaidOut_example = compute_layout-IsLaidOut two_by_five (omega arith)

abbrev huge : Geometry
huge = record { cyl = 2 ^ 15; sec = 2 ^ 15 }

compute_layout-wraps_example :
    ((compute_layout huge).fat_sectors ≡ 0) × ((compute_layout huge).total_blocks ≡ 2 ^ 30)
compute_layout-wraps_example = compute_layout-wraps huge (omega arith)
