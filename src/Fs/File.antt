-- ===== src/Fs/File.antt =====
-- read_whole_file and write_whole_file of fs_server.c.
pub mod Stored
pub mod Writing
pub mod Reading
pub mod Release
pub mod Roundtrip
pub mod Full
pub mod Wraps
use cs4440proj3_final.Prelude.{
  ℕ, zero, suc, ◌+◌, ◌-◌, ◌/◌, ◌%◌, not, ◌&&◌, ◌||◌, Option, none, some, List, [], ◌∷◌, ◌++◌, Bytes,
  slice, splice, replicate, length, take, get_elem?, min, leb, ◌==◌, if◌then◌else◌,
}
use cs4440proj3_final.Fs.Exec.{Res, ok, io, fault, Exec, pure, raise, ◌>>=◌, ◌>>◌}
use cs4440proj3_final.Fs.Words.{u32_mod}
use cs4440proj3_final.Fs.Link.{disk_read_idx, disk_write_idx}
use cs4440proj3_final.Fs.Layout.{Layout}
use cs4440proj3_final.Fs.Dirent.{Dirent}
use cs4440proj3_final.Fs.Fat.{fat_eof, free_chain, Alloc, alloc_loop}
use cs4440proj3_final.Fs.State.{Fs, on_link, put_table}

-- fat_get; outside the table it is a fault.
unfoldable pub fat_get : ℕ → Exec Fs ℕ
fat_get i s = elim (get_elem? s.fat.v i) [ none ↦ (fault, s) | some x ↦ (ok x, s) ]

-- The loop over the chain, with `left` bytes to read; every round reads at least one, so `suc left`
-- is fuel enough. A chain that ends too early leaves bytes of the buffer unset: a fault.
unfoldable pub read_blocks : ℕ → ℕ → ℕ → Exec Fs Bytes
read_blocks zero left cur = raise fault
read_blocks (suc fuel) left cur =
    let rest : Exec Fs Bytes = (do
      blk ← on_link (disk_read_idx cur)
      nxt ← fat_get cur
      more ← read_blocks fuel (left - min left 128) nxt
      pure (take (min left 128) blk ++ more)) in
    if left == 0 then pure [] else if cur == fat_eof then raise fault else rest

unfoldable pub read_whole_file : Dirent → Exec Fs Bytes
read_whole_file e = read_blocks (suc e.len) e.len e.first

-- The sector with the next bytes of the file, zeros behind them.
abbrev pub data_sector : Bytes → ℕ → ℕ → Bytes
data_sector bytes pos n = splice 0 (slice pos n bytes) (replicate 128 0)

-- The loop that writes the blocks from `cur` on, `pos` of `len` bytes being written.
unfoldable pub write_blocks : ℕ → Bytes → ℕ → ℕ → Exec Fs (Unit {0})
write_blocks zero bytes pos cur = raise fault
write_blocks (suc fuel) bytes pos cur =
    let n : ℕ = min (length bytes - pos) 128 in
    let rest : Exec Fs (Unit {0}) = (do
      on_link (disk_write_idx cur (data_sector bytes pos n))
      nxt ← fat_get cur
      write_blocks fuel bytes (pos + n)
          (if (nxt == fat_eof) || leb (length bytes) (pos + n) then fat_eof else nxt)) in
    if cur == fat_eof then pure tt else rest

-- free_chain on the cached table
unfoldable pub release : ℕ → Exec Fs (Unit {0})
release head s = elim (free_chain (suc (length s.fat.v)) head s.fat.v) [
  | none ↦ (fault, s)
  | some v ↦ (ok tt, put_table v s)
]

-- The blocks that a file of this length takes, in uint32_t arithmetic.
unfoldable pub blocks_for : ℕ → ℕ
blocks_for len = (len + 128 - 1) % u32_mod / 128

abbrev pub data_start : Layout → ℕ
data_start l = (l.dir_start + l.dir_sectors) % u32_mod

-- the loop that allocates; `none` is no space
unfoldable pub allocate : Layout → ℕ → Exec Fs (Option ℕ)
allocate l k s =
    let (head, v) =
      alloc_loop l.total_blocks (data_start l) k fat_eof
        (record { head = fat_eof; table = s.fat.v }) in
    (ok head, put_table v s)

-- The entry as it stands after the call, or `none` for the result -2.
unfoldable pub fill : Bytes → Dirent → Option ℕ → Exec Fs (Option Dirent)
fill bytes e none = pure none
fill bytes e (some head) = do
  write_blocks (suc (length bytes)) bytes 0 head
  pure (some (record e { first = head }))

abbrev pub skip : Exec Fs (Unit {0})
skip = pure tt

-- The length of `bytes` is the argument `len`.
unfoldable pub write_whole_file : Layout → Dirent → Bytes → Exec Fs (Option Dirent)
write_whole_file l e bytes = do
  if not (e.used == 0) && not (e.first == fat_eof) then release e.first else skip
  let e' = record e { first = fat_eof; len = length bytes }
  let long = (do head ← allocate l (blocks_for (length bytes)); fill bytes e' head)
  if length bytes == 0 then pure (some e') else long
