-- ===== src/Fs/Layout/Regions.antt =====
-- The regions that compute_layout of fs_server.c lays out.
use cs4440proj3_final.Prelude.{◌+◌, ◌-◌, ◌*◌, ◌^◌, ◌≤◌, ◌<◌, ◌≡◌, refl, arith}
use cs4440proj3_final.Fs.Layout.{Layout, Geometry, total_blocks, compute_layout}

-- What a layout is meant to be: the FAT has an entry for every block and less than a sector more,
-- and the superblock, the FAT and the directory follow one another.
pub record IsLaidOut (d : Geometry) (l : Layout) : Type 0 where
  pub blocks : l.total_blocks ≡ d.cyl * d.sec
  pub enough : l.total_blocks ≤ 32 * l.fat_sectors
  pub needed : 32 * l.fat_sectors < l.total_blocks + 32
  pub fat : l.fat_start ≡ 1
  pub dir : l.dir_start ≡ l.fat_start + l.fat_sectors
  pub entries : l.dir_entries ≡ 2 * l.dir_sectors

-- On a disk of at most 2 ^ 30 - 32 blocks no step of compute_layout wraps around.
pub compute_layout-IsLaidOut :
    (d : Geometry) → d.cyl * d.sec ≤ 2 ^ 30 - 32 → IsLaidOut d (compute_layout d)
unfolding compute_layout total_blocks
compute_layout-IsLaidOut d h = record {
  blocks = omega arith;
  enough = omega arith;
  needed = omega arith;
  fat = refl;
  dir = omega arith;
  entries = refl;
}

-- On a disk of 2 ^ 30 blocks the size of the FAT wraps around: it has no sector at all.
pub compute_layout-wraps :
    (d : Geometry)
    → d.cyl * d.sec ≡ 2 ^ 30
    → ((compute_layout d).fat_sectors ≡ 0) × ((compute_layout d).total_blocks ≡ 2 ^ 30)
unfolding compute_layout total_blocks
compute_layout-wraps d h = (omega arith, omega arith)
