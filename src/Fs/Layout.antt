-- ===== src/Fs/Layout.antt =====
-- The layout of the disk in fs_server.c: the superblock, and where the FAT and the directory lie.
pub mod Packing
pub mod Regions
use cs4440proj3_final.Prelude.{
  ℕ, zero, suc, ◌+◌, ◌-◌, ◌*◌, ◌/◌, ◌%◌, Bool, true, false, ◌&&◌, Option, none, some, [], ◌∷◌,
  Bytes, slice, splice, replicate, ◌==◌, if◌then◌else◌,
}
use cs4440proj3_final.Fs.Words.{u32_mod, to_le, of_le}

-- layout_t
pub record Layout : Type 0 where
  pub total_blocks : ℕ
  pub fat_start : ℕ
  pub fat_sectors : ℕ
  pub dir_start : ℕ
  pub dir_sectors : ℕ
  pub dir_entries : ℕ

-- `cyl` and `sec` of a disk_t
pub record Geometry : Type 0 where
  pub cyl : ℕ
  pub sec : ℕ

unfoldable pub total_blocks : Geometry → ℕ
total_blocks d = d.cyl * d.sec % u32_mod

-- All of it is uint32_t arithmetic.
unfoldable pub compute_layout : Geometry → Layout
unfolding total_blocks
compute_layout d =
    let total : ℕ = total_blocks d in
    let fat_bytes : ℕ = total * 4 % u32_mod in
    let fat_secs : ℕ = (fat_bytes + 128 - 1) % u32_mod / 128 in
    record {
      total_blocks = total;
      fat_start = 1;
      fat_sectors = fat_secs;
      dir_start = (1 + fat_secs) % u32_mod;
      dir_sectors = 32;
      dir_entries = 64;
    }

-- "CSFS1"
abbrev pub magic : Bytes
magic = b'C' ∷ b'S' ∷ b'F' ∷ b'S' ∷ b'1' ∷ []

unfoldable pub super_pack : Geometry → Layout → Bytes
super_pack d l = splice 60 (to_le 4 l.dir_entries) (
    splice 56 (to_le 4 l.dir_sectors) (
      splice 52 (to_le 4 l.dir_start) (
        splice 48 (to_le 4 l.fat_sectors) (
          splice 44 (to_le 4 l.fat_start) (
            splice 40 (to_le 4 l.total_blocks) (
              splice 24 (to_le 8 d.sec)
                (splice 16 (to_le 8 d.cyl) (splice 0 magic (replicate 128 0)))))))))

-- memcmp(blk, "CSFS1", 5) == 0
unfoldable pub has_magic : Bytes → Bytes → Bool
has_magic [] blk = true
has_magic (m ∷ ms) [] = false
has_magic (m ∷ ms) (b ∷ blk) = (m == b) && has_magic ms blk

unfoldable pub super_load : Bytes → Option (Geometry × Layout)
super_load blk =
    if has_magic magic blk
    then some (
      record { cyl = of_le (slice 16 8 blk); sec = of_le (slice 24 8 blk) },
      record {
        total_blocks = of_le (slice 40 4 blk);
        fat_start = of_le (slice 44 4 blk);
        fat_sectors = of_le (slice 48 4 blk);
        dir_start = of_le (slice 52 4 blk);
        dir_sectors = of_le (slice 56 4 blk);
        dir_entries = of_le (slice 60 4 blk);
      },
    )
    else none
