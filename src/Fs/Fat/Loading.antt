-- ===== src/Fs/Fat/Loading.antt =====
-- fat_load of fs_server.c reads back the table that fat_flush has written.
use mathlib.Core.List.{append-nil}
use cs4440proj3_final.Prelude.{
  ℕ, zero, suc, ◌+◌, ◌-◌, ◌*◌, ◌%◌, ◌≤◌, ◌<◌, ◌≡◌, refl, ap, sym, ◌∙◌, true, false, List, [], ◌++◌,
  Bytes, length, take, drop, splice, replicate, min, arith,
}
use cs4440proj3_final.Fs.Exec.{ok, Runs, step}
use cs4440proj3_final.Fs.Words.{u32_mod, words_of}
use cs4440proj3_final.Fs.Link.{Link}
use cs4440proj3_final.Fs.Link.Laws.{Holds}
use cs4440proj3_final.Fs.Link.Reading.{disk_read_idx_lem}
use cs4440proj3_final.Fs.Layout.{Layout}
use cs4440proj3_final.Fs.State.{Fs, on_link_lem}
use cs4440proj3_final.Fs.Fat.{per_sector, fat_sector, load_sectors, fat_load, fat_flush}
use cs4440proj3_final.Fs.File.Reading.{Quiet}
use cs4440proj3_final.Fs.Fat.Flushing.{entry_of, fat_flush-Flushed}
use cs4440proj3_final.Fs.Fat.Pieces.{
  AllSmall, sub_zero, AllSmall-take, AllSmall-drop, take-all, so_far, so_far-next,
}

module _ (n : ℕ) (g : ℕ → Bytes) (l : Layout) (v : List ℕ) (size : length v ≡ l.total_blocks)
    (small : AllSmall v) where
  load_sectors_lem :
      (k s idx : ℕ) (st : Fs)
      → Holds n g st.link
      → l.fat_start + s + k ≤ n
      → idx ≡ entry_of l s
      → ((j : ℕ) → s ≤ j → j < s + k → g (l.fat_start + j) ≡ fat_sector l v (entry_of l j))
      → Quiet n g
          (load_sectors l k s idx (so_far l.total_blocks idx v))
          st
          (so_far l.total_blocks (entry_of l (s + k)) v)
  unfolding load_sectors
  load_sectors_lem zero s idx st h le e here = record {
    end = st.link;
    eq = ap (λ i. (ok (so_far l.total_blocks i v), st)) (e ∙ ap (entry_of l) (omega arith));
    holds = h;
  }
  load_sectors_lem (suc k) s idx st h le e here =
      let small_disk : n < u32_mod = h.disk.small in
      let wraps : (l.fat_start + s) % u32_mod ≡ l.fat_start + s = omega arith in
      let in_disk : (l.fat_start + s) % u32_mod < n = omega arith in
      let r = disk_read_idx_lem ((l.fat_start + s) % u32_mod) h in_disk in
      let bound : idx ≤ l.total_blocks = omega arith in
      let sector : g ((l.fat_start + s) % u32_mod) ≡ fat_sector l v idx =
        ap g wraps ∙ here s (omega arith) (omega arith) ∙ ap (fat_sector l v) (sym e) in
      let words = so_far-next l.total_blocks idx v size bound (
        AllSmall-take (min per_sector (l.total_blocks - idx)) (drop idx v)
          (AllSmall-drop idx v small)) in
      let later : l.fat_start + (s + 1) + k ≤ n = omega arith in
      let next : min l.total_blocks (idx + per_sector) ≡ entry_of l (s + 1) = omega arith in
      let more =
        load_sectors_lem k (s + 1) (min l.total_blocks (idx + per_sector))
          (record st { link = r.end }) r.post later next
          (λ j a b. here j (omega arith) (omega arith)) in
      record {
        end = more.end;
        eq =
            step _ (on_link_lem st r)
            ∙ ap
                (λ t.
                  load_sectors l k (s + 1) (min l.total_blocks (idx + per_sector)) t
                    (record st { link = r.end }))
                (ap (λ b. splice idx (words_of per_sector b) (so_far l.total_blocks idx v)) sector
                  ∙ words)
            ∙ more.eq
            ∙ ap (λ i. (ok (so_far l.total_blocks (entry_of l i) v), record st { link = more.end }))
                (omega arith);
        holds = more.holds;
      }

-- the server after a restart: the same disk, nothing cached
abbrev pub uncached : Link → Fs → Fs
uncached l st = record st { link = l; fat = record { v = []; loaded = false } }

loaded_whole :
    (total k : ℕ) (v : List ℕ) → length v ≡ total → total ≤ k → so_far total (min total k) v ≡ v
loaded_whole total k v size le =
    ap (λ i. take i v ++ replicate (total - i) 0) (whole total k le)
    ∙ ap (λ m. take total v ++ replicate m 0) (sub_self total)
    ∙ append-nil (take total v)
    ∙ take-all total v (omega arith)
  where
    whole : (total k : ℕ) → total ≤ k → min total k ≡ total
    whole total k le = omega arith

    sub_self : (m : ℕ) → m - m ≡ 0
    sub_self m = omega arith

-- fat_load of a server with nothing cached, on a disk whose sectors have a table of 32-bit entries.
pub fat_load_lem :
    (n : ℕ) (g : ℕ → Bytes) (l1 : Link) (st : Fs) (v : List ℕ)
    → Holds n g l1
    → length v ≡ st.layout.total_blocks
    → AllSmall v
    → st.layout.fat_start + st.layout.fat_sectors ≤ n
    → st.layout.total_blocks ≤ 32 * st.layout.fat_sectors
    → ((j : ℕ)
        → j < st.layout.fat_sectors
        → g (st.layout.fat_start + j) ≡ fat_sector st.layout v (entry_of st.layout j))
    → Runs fat_load (uncached l1 st) tt (λ s'.
      (s' ≡ record st { link = s'.link; fat = record { v = v; loaded = true } })
      × Holds n g s'.link)
unfolding fat_load
fat_load_lem n g l1 st v h size small le enough here =
    let l = st.layout in
    let r =
      load_sectors_lem n g l v size small l.fat_sectors 0 0 (uncached l1 st) h (omega arith)
        (omega arith) (λ j a lt. here j (omega arith)) in
    record {
      end = record st { link = r.end; fat = record { v = v; loaded = true } };
      eq =
          step _ (
            ap (λ m. load_sectors l l.fat_sectors 0 0 (replicate m 0) (uncached l1 st))
              (sub_zero l.total_blocks)
            ∙ r.eq)
          ∙ ap (λ t. (ok tt, record st { link = r.end; fat = record { v = t; loaded = true } }))
              (loaded_whole l.total_blocks (32 * (0 + l.fat_sectors)) v size (omega arith));
      post = (refl, r.holds);
    }

-- On a connection that holds sectors, with a loaded table of 32-bit entries, one for each block, and
-- a FAT region that is on the disk and large enough, fat_flush succeeds, and fat_load of a server
-- that starts on this disk with nothing cached gives the same table.
pub fat_load-fat_flush :
    (n : ℕ) (g : ℕ → Bytes) (st : Fs)
    → Holds n g st.link
    → st.fat.loaded ≡ true
    → length st.fat.v ≡ st.layout.total_blocks
    → AllSmall st.fat.v
    → st.layout.fat_start + st.layout.fat_sectors ≤ n
    → st.layout.total_blocks ≤ 32 * st.layout.fat_sectors
    → (l1 l2 : Link) × (fat_flush st ≡ (ok tt, record st { link = l1 }))
      × (fat_load (uncached l1 st)
          ≡ (ok tt, record st { link = l2; fat = record { v = st.fat.v; loaded = true } }))
fat_load-fat_flush n g st h loaded size small le enough =
    let v = st.fat.v in
    let f = fat_flush-Flushed n g st h loaded le in
    let r =
      fat_load_lem n f.sectors f.end st v f.holds size small le enough
        (λ j lt. f.here j (omega arith) (omega arith)) in
    (f.end, r.end.link, f.eq, r.eq ∙ ap (λ s. (ok tt, s)) r.post.0)
