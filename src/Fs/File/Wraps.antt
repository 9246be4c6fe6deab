-- ===== src/Fs/File/Wraps.antt =====
-- write_whole_file of fs_server.c at the lengths for which the number of blocks wraps around.
use cs4440proj3_final.Prelude.{
  ℕ, ◌+◌, ◌<◌, ◌≤◌, ◌≡◌, ◌∙◌, refl, some, false, List, Bytes, length, ◌==◌, arith,
}
use cs4440proj3_final.Fs.Exec.{ok, step}
use cs4440proj3_final.Fs.Words.{u32_mod}
use cs4440proj3_final.Fs.Dirent.{Dirent}
use cs4440proj3_final.Fs.State.{Fs, put_table}
use cs4440proj3_final.Fs.Fat.{fat_eof, alloc_loop}
use cs4440proj3_final.Fs.Fat.Chains.{clear}
use cs4440proj3_final.Fs.File.{blocks_for, allocate, fill, write_blocks, write_whole_file}
use cs4440proj3_final.Fs.File.Release.{Ready, release_old}

blocks_for-wraps : (len : ℕ) → u32_mod ≤ len + 127 → len < u32_mod → blocks_for len ≡ 0
unfolding blocks_for
blocks_for-wraps len big small = omega arith

-- For an entry in use with a chain in the data area, and a length from 2^32 - 127 to 2^32 - 1,
-- write_whole_file frees the old chain, takes no block and writes no sector, but succeeds, with the
-- length in an entry that has no chain.
pub write_whole_file-wraps :
    {n : ℕ} {g : ℕ → Bytes} {e : Dirent} {old : List ℕ} {s : Fs} (bytes : Bytes)
    → Ready n g e old s
    → 4294967296 ≤ length bytes + 127
    → length bytes < 4294967296
    → write_whole_file s.layout e bytes s ≡ (
      ok (some (record e { first = fat_eof; len = length bytes })),
      put_table (clear old s.fat.v) s,
    )
unfolding write_whole_file allocate alloc_loop fill write_blocks
write_whole_file-wraps {s} bytes r big small =
    let none_needed = blocks_for-wraps (length bytes) big small in
    let some_bytes : (length bytes == 0) ≡ false = ground arith in
    step _ (release_old r) ∙ rw (some_bytes, none_needed) refl
