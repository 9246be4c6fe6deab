-- ===== src/Fs/Fat.antt =====
-- The FAT of fs_server.c: its cache, and the search for free blocks and the freeing of chains in it.
pub mod Tables
pub mod Chains
pub mod Hanging
pub mod Allocation
pub mod Replace
pub mod Flushing
pub mod Pieces
pub mod Loading
use cs4440proj3_final.Prelude.{
  ℕ, zero, suc, ◌+◌, ◌-◌, ◌*◌, ◌%◌, Option, none, some, true, List, [], ◌∷◌, Bytes, slice, splice,
  replicate, length, take, drop, set, get_elem?, min, ◌==◌, if◌then◌else◌,
}
use cs4440proj3_final.Fs.Exec.{Res, ok, io, fault, Exec, pure, raise, ◌>>=◌, ◌>>◌}
use cs4440proj3_final.Fs.Words.{u32_mod, words_of, bytes_of}
use cs4440proj3_final.Fs.Link.{disk_read_idx, disk_write_idx}
use cs4440proj3_final.Fs.Layout.{Layout}
use cs4440proj3_final.Fs.State.{Fs, FatCache, on_link, put_table}

abbrev pub fat_free_mark : ℕ
fat_free_mark = 0

abbrev pub fat_eof : ℕ
fat_eof = 0xffff_ffff

abbrev pub fat_reserved : ℕ
fat_reserved = 0xffff_fffe

-- BLKSZ / 4
abbrev pub per_sector : ℕ
per_sector = 32

-- the sectors still to be read, the next one, the next entry, the table so far
unfoldable pub load_sectors : Layout → ℕ → ℕ → ℕ → List ℕ → Exec Fs (List ℕ)
load_sectors l zero s idx v = pure v
load_sectors l (suc k) s idx v = do
  blk ← on_link (disk_read_idx ((l.fat_start + s) % u32_mod))
  load_sectors l k (s + 1) (min l.total_blocks (idx + per_sector))
      (splice idx (words_of per_sector blk) v)

abbrev store_table : List ℕ → Exec Fs (Unit {0})
store_table v s = (ok tt, record s { fat = record { v = v; loaded = true } })

-- calloc does not fail here; a table that was not read to its end is not kept.
unfoldable pub fat_load : Exec Fs (Unit {0})
fat_load s =
    if s.fat.loaded
    then (ok tt, s)
    else (do
      v ← load_sectors s.layout s.layout.fat_sectors 0 0 (replicate s.layout.total_blocks 0)
      store_table v)
        s

-- The sector with the entries from `idx` on, for a table with `total_blocks` entries; in C a shorter one
-- is read behind its end.
abbrev pub fat_sector : Layout → List ℕ → ℕ → Bytes
fat_sector l v idx =
    splice 0 (bytes_of (take (min per_sector (l.total_blocks - idx)) (drop idx v)))
      (replicate 128 0)

unfoldable pub flush_sectors : Layout → List ℕ → ℕ → ℕ → ℕ → Exec Fs (Unit {0})
flush_sectors l v zero s idx = pure tt
flush_sectors l v (suc k) s idx = do
  on_link (disk_write_idx ((l.fat_start + s) % u32_mod) (fat_sector l v idx))
  flush_sectors l v k (s + 1) (min l.total_blocks (idx + per_sector))

unfoldable pub fat_flush : Exec Fs (Unit {0})
fat_flush s =
    if s.fat.loaded then flush_sectors s.layout s.fat.v s.layout.fat_sectors 0 0 s else (ok tt, s)

-- The first free entry of a piece of the table that begins at index `i`.
unfoldable pub first_free : ℕ → List ℕ → Option ℕ
first_free i [] = none
first_free i (x ∷ v) =
    let more = first_free (i + 1) v in if x == fat_free_mark then some i else more

-- For a table with at least `total` entries; in C a shorter one is read behind its end.
unfoldable pub find_free_block : ℕ → ℕ → List ℕ → Option ℕ
unfolding first_free
find_free_block total start v = first_free start (drop start (take total v))

-- The loop of free_chain on fuel; `none`: it leaves the table, or does not end.
unfoldable pub free_chain : ℕ → ℕ → List ℕ → Option (List ℕ)
free_chain zero cur v = none
free_chain (suc fuel) cur v = elim (get_elem? v cur) [
  | none ↦ if cur == fat_eof then some v else none
  | some nxt ↦
      if cur == fat_eof
      then some v
      else if nxt == fat_eof
      then some (set v cur fat_free_mark)
      else free_chain fuel nxt (set v cur fat_free_mark)
]

-- The loop of write_whole_file that takes `k` blocks; `prev` is the last one taken.
pub record Alloc : Type 0 where
  pub head : ℕ
  pub table : List ℕ

-- fat_set(prev, b), or head = b
abbrev pub chain_on : ℕ → ℕ → Alloc → Alloc
chain_on prev b a =
    if prev == fat_eof
    then record { head = b; table = set a.table b fat_eof }
    else record a { table = set (set a.table b fat_eof) prev b }

-- `none` beside the table: no space, with what was taken so far.
unfoldable pub alloc_loop : ℕ → ℕ → ℕ → ℕ → Alloc → Option ℕ × List ℕ
alloc_loop total start zero prev a = (some a.head, a.table)
alloc_loop total start (suc k) prev a = elim (find_free_block total start a.table) [
  | none ↦ (none, a.table)
  | some b ↦ alloc_loop total start k b (chain_on prev b a)
]
