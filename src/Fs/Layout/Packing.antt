-- ===== src/Fs/Layout/Packing.antt =====
-- The superblock comes back from the bytes that it was packed into.
use cs4440proj3_final.Prelude.{
  ℕ, ◌+◌, ◌≤◌, ◌<◌, ◌^◌, ◌≡◌, ◌∙◌, refl, ap, List, some, [], ◌∷◌, ◌++◌, Bytes, arith, true, length,
  replicate, slice, layers, Apart, All, read_field, length-layers, length-replicate,
}
use cs4440proj3_final.Fs.Words.{u32_mod, to_le, of_le, length-to_le, of_le-to_le_4, of_le-to_le_8}
use cs4440proj3_final.Fs.Layout.{Layout, Geometry, magic, super_pack, has_magic, super_load}

-- The fields fit theirs on the disk.
pub record IsStorable (d : Geometry) (l : Layout) : Type 0 where
  pub cyl : d.cyl < 2 ^ 64
  pub sec : d.sec < 2 ^ 64
  pub total_blocks : l.total_blocks < u32_mod
  pub fat_start : l.fat_start < u32_mod
  pub fat_sectors : l.fat_sectors < u32_mod
  pub dir_start : l.dir_start < u32_mod
  pub dir_sectors : l.dir_sectors < u32_mod
  pub dir_entries : l.dir_entries < u32_mod

-- a field of four or eight bytes
abbrev word : ℕ → ℕ → ℕ × Bytes
word o n = (o, to_le 4 n)

abbrev long : ℕ → ℕ → ℕ × Bytes
long o n = (o, to_le 8 n)

pub length-super_pack : (d : Geometry) (l : Layout) → length (super_pack d l) ≡ 128
unfolding super_pack
length-super_pack d l =
    length-layers
      (word 60 l.dir_entries
        ∷ word 56 l.dir_sectors
        ∷ word 52 l.dir_start
        ∷ word 48 l.fat_sectors
        ∷ word 44 l.fat_start
        ∷ word 40 l.total_blocks
        ∷ long 24 d.sec
        ∷ long 16 d.cyl
        ∷ (0, magic)
        ∷ [])
      (replicate 128 0)
    ∙ length-replicate {A = ℕ} 128 0

-- A word is read back if the fields that were copied after it lie elsewhere.
read_word :
    (above : List (ℕ × Bytes)) (o n : ℕ) (below : List (ℕ × Bytes))
    → All (Apart o 4) above
    → o + 4 ≤ 128
    → n < u32_mod
    → of_le (slice o 4 (layers (above ++ (word o n ∷ below)) (replicate 128 0))) ≡ n
read_word above o n below apart fits small =
    ap of_le
      (read_field above o 4 (to_le 4 n) below (replicate 128 0) (length-to_le 4 n) apart fits)
    ∙ of_le-to_le_4 n small

read_long :
    (above : List (ℕ × Bytes)) (o n : ℕ) (below : List (ℕ × Bytes))
    → All (Apart o 8) above
    → o + 8 ≤ 128
    → n < 2 ^ 64
    → of_le (slice o 8 (layers (above ++ (long o n ∷ below)) (replicate 128 0))) ≡ n
read_long above o n below apart fits small =
    ap of_le
      (read_field above o 8 (to_le 8 n) below (replicate 128 0) (length-to_le 8 n) apart fits)
    ∙ of_le-to_le_8 n small

-- the magic is the first five bytes
has_magic-slice : (ms blk : Bytes) → slice 0 (length ms) blk ≡ ms → has_magic ms blk ≡ true
unfolding has_magic
has_magic-slice [] blk h = refl
has_magic-slice (m ∷ ms) [] h = cc
has_magic-slice (m ∷ ms) (b ∷ blk) h = ground (arith, has_magic-slice ms blk)

-- The fields of the superblock, the last one copied first.
abbrev words_above : Geometry → Layout → List (ℕ × Bytes)
words_above d l =
    word 60 l.dir_entries
    ∷ word 56 l.dir_sectors
    ∷ word 52 l.dir_start
    ∷ word 48 l.fat_sectors
    ∷ word 44 l.fat_start
    ∷ word 40 l.total_blocks
    ∷ long 24 d.sec
    ∷ long 16 d.cyl
    ∷ []

super_pack-layers :
    (d : Geometry) (l : Layout)
    → super_pack d l ≡ layers (words_above d l ++ ((0, magic) ∷ [])) (replicate 128 0)
unfolding super_pack
super_pack-layers d l = refl

-- If the geometry fits 64 bits and the layout 32, super_load accepts what super_pack writes and
-- reads the same geometry and layout from it.
pub super_load-super_pack :
    (d : Geometry) (l : Layout) → IsStorable d l → super_load (super_pack d l) ≡ some (d, l)
unfolding super_load super_pack
super_load-super_pack d l v =
    let entries = word 60 l.dir_entries in
    let dir_len = word 56 l.dir_sectors in
    let dir = word 52 l.dir_start in
    let fat_len = word 48 l.fat_sectors in
    let fat = word 44 l.fat_start in
    let total = word 40 l.total_blocks in
    let sec = long 24 d.sec in
    let cyl = long 16 d.cyl in
    let tag : ℕ × Bytes = (0, magic) in
    rw
      (has_magic-slice magic (super_pack d l) (
        read_field (words_above d l) 0 5 magic [] (replicate 128 0) refl
          (omega (arith, length-to_le)) (omega arith)))
      (ground (
        arith,
        read_long (entries ∷ dir_len ∷ dir ∷ fat_len ∷ fat ∷ total ∷ sec ∷ []) 16 d.cyl (tag ∷ [])
            (omega (arith, length-to_le)) (omega arith) v.cyl,
        read_long (entries ∷ dir_len ∷ dir ∷ fat_len ∷ fat ∷ total ∷ []) 24 d.sec (cyl ∷ tag ∷ [])
            (omega (arith, length-to_le)) (omega arith) v.sec,
        read_word (entries ∷ dir_len ∷ dir ∷ fat_len ∷ fat ∷ []) 40 l.total_blocks
            (sec ∷ cyl ∷ tag ∷ []) (omega (arith, length-to_le)) (omega arith) v.total_blocks,
        read_word (entries ∷ dir_len ∷ dir ∷ fat_len ∷ []) 44 l.fat_start
            (total ∷ sec ∷ cyl ∷ tag ∷ []) (omega (arith, length-to_le)) (omega arith) v.fat_start,
        read_word (entries ∷ dir_len ∷ dir ∷ []) 48 l.fat_sectors
            (fat ∷ total ∷ sec ∷ cyl ∷ tag ∷ []) (omega (arith, length-to_le)) (omega arith)
            v.fat_sectors,
        read_word (entries ∷ dir_len ∷ []) 52 l.dir_start
            (fat_len ∷ fat ∷ total ∷ sec ∷ cyl ∷ tag ∷ []) (omega (arith, length-to_le))
            (omega arith) v.dir_start,
        read_word (entries ∷ []) 56 l.dir_sectors
            (dir ∷ fat_len ∷ fat ∷ total ∷ sec ∷ cyl ∷ tag ∷ []) (omega (arith, length-to_le))
            (omega arith) v.dir_sectors,
        read_word [] 60 l.dir_entries (dir_len ∷ dir ∷ fat_len ∷ fat ∷ total ∷ sec ∷ cyl ∷ tag ∷ [])
            tt (omega arith) v.dir_entries,
      ))
