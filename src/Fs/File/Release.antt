-- ===== src/Fs/File/Release.antt =====
-- The first part of write_whole_file of fs_server.c: the old blocks of the file are freed.
use cs4440proj3_final.Prelude.{
  ℕ, suc, ◌≤◌, ◌<◌, ◌≡◌, ◌≢◌, refl, true, false, not, ◌&&◌, some, List, [], ◌∷◌, Bytes, length,
  ◌==◌, if◌then◌else◌, arith, All,
}
use cs4440proj3_final.Fs.Exec.{ok}
use cs4440proj3_final.Fs.Link.Laws.{Holds}
use cs4440proj3_final.Fs.Dirent.{Dirent}
use cs4440proj3_final.Fs.State.{Fs, put_table}
use cs4440proj3_final.Fs.Fat.{fat_eof, free_chain}
use cs4440proj3_final.Fs.Fat.Chains.{Chain, Distinct, clear, length-Chain, free_chain-clear}
use cs4440proj3_final.Fs.Fat.Replace.{behind-Data}
use cs4440proj3_final.Fs.File.{release, skip, data_start}

-- What write_whole_file starts from: `old` are the blocks of the entry's file, in the data area.
pub record Ready (n : ℕ) (g : ℕ → Bytes) (e : Dirent) (old : List ℕ) (s : Fs) : Type 0 where
  pub holds : Holds n g s.link
  pub table : length s.fat.v ≡ s.layout.total_blocks
  pub fits : s.layout.total_blocks ≤ n
  pub start : 0 < data_start s.layout
  pub used : e.used ≢ 0
  pub chain : Chain s.fat.v e.first old
  pub distinct : Distinct old
  pub behind : All (λ b. data_start s.layout ≤ b) old

release_lem :
    (head : ℕ) (s : Fs) {v : List ℕ}
    → free_chain (suc (length s.fat.v)) head s.fat.v ≡ some v
    → release head s ≡ (ok tt, put_table v s)
unfolding release
release_lem head s h = rw (release, h) refl

pub release_old :
    {n : ℕ} {g : ℕ → Bytes} {e : Dirent} {old : List ℕ} {s : Fs}
    → Ready n g e old s
    → (if not (e.used == 0) && not (e.first == fat_eof) then release e.first else skip) s
      ≡ (ok tt, put_table (clear old s.fat.v) s)
unfolding clear
release_old {e} {old = []} {s} r =
    let no_chain : (e.first == fat_eof) ≡ true = rw r.chain refl in
    let is_used : (e.used == 0) ≡ false = ground (arith, r.used) in rw (is_used, no_chain) refl
release_old {e} {old = b ∷ bs} {s} r =
    let a_chain : (e.first == fat_eof) ≡ false = ground (arith, r.chain.0, r.chain.1) in
    let is_used : (e.used == 0) ≡ false = ground (arith, r.used) in
    let old = b ∷ bs in
    let pos = behind-Data (data_start s.layout) old r.start r.behind in
    let freed =
      free_chain-clear (suc (length s.fat.v)) s.fat.v e.first old r.chain r.distinct
        (omega (arith, length-Chain s.fat.v e.first old r.chain r.distinct pos)) in
    rw (is_used, a_chain) (release_lem e.first s freed)
