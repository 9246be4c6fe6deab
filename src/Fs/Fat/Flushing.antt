-- ===== src/Fs/Fat/Flushing.antt =====
-- fat_flush of fs_server.c writes the table to its sectors.
use native.Mathlib.Decide.{ℕ_discrete}
use cs4440proj3_final.Prelude.{
  ℕ, zero, suc, ◌+◌, ◌-◌, ◌*◌, ◌%◌, ◌≤◌, ◌<◌, ◌≡◌, refl, ap, sym, ◌∙◌, ◌⊎◌, inl, true, List, Bytes,
  length, take, drop, replicate, min, if◌then◌else◌, arith, length-splice, length-replicate,
}
use cs4440proj3_final.Fs.Exec.{ok, Exec, step}
use cs4440proj3_final.Fs.Words.{u32_mod, bytes_of}
use cs4440proj3_final.Fs.Link.{Link}
use cs4440proj3_final.Fs.Link.Laws.{Holds, update, update_self, update_ne}
use cs4440proj3_final.Fs.Link.Writing.{disk_write_idx_lem}
use cs4440proj3_final.Fs.Layout.{Layout}
use cs4440proj3_final.Fs.State.{Fs, on_link_lem}
use cs4440proj3_final.Fs.Fat.{per_sector, fat_sector, flush_sectors, fat_flush}

length-fat_sector : (l : Layout) (v : List ℕ) (idx : ℕ) → length (fat_sector l v idx) ≡ 128
length-fat_sector l v idx =
    length-splice 0 (bytes_of (take (min per_sector (l.total_blocks - idx)) (drop idx v)))
      (replicate 128 0)
    ∙ length-replicate {A = ℕ} 128 0

-- the first entry of a sector of the table
abbrev pub entry_of : Layout → ℕ → ℕ
entry_of l j = min l.total_blocks (32 * j)

-- The sectors `s` to `s + k` of the table have been written, and no others.
pub record Flushed (n : ℕ) (g : ℕ → Bytes) (l : Layout) (v : List ℕ) (s k : ℕ)
    (m : Exec Fs (Unit {0})) (st : Fs) : Type 0 where
  pub end : Link
  pub sectors : ℕ → Bytes
  pub eq : m st ≡ (ok tt, record st { link = end })
  pub holds : Holds n sectors end
  pub here : (j : ℕ) → s ≤ j → j < s + k → sectors (l.fat_start + j) ≡ fat_sector l v (entry_of l j)
  pub elsewhere : (i : ℕ) → (i < l.fat_start + s) ⊎ (l.fat_start + s + k ≤ i) → sectors i ≡ g i

module _ (n : ℕ) (l : Layout) (v : List ℕ) where
  flush_sectors_lem :
      (g : ℕ → Bytes) (k s idx : ℕ) (st : Fs)
      → Holds n g st.link
      → l.fat_start + s + k ≤ n
      → idx ≡ entry_of l s
      → Flushed n g l v s k (flush_sectors l v k s idx) st
  unfolding flush_sectors
  flush_sectors_lem g zero s idx st h le e = record {
    end = st.link;
    sectors = g;
    eq = refl;
    holds = h;
    here = λ j a b. absurd (omega arith);
    elsewhere = λ i out. refl;
  }
  flush_sectors_lem g (suc k) s idx st h le e =
      let at : ℕ = l.fat_start + s in
      let small : n < u32_mod = h.disk.small in
      let wraps : (l.fat_start + s) % u32_mod ≡ at = omega arith in
      let in_disk : (l.fat_start + s) % u32_mod < n = omega arith in
      let b = fat_sector l v idx in
      let w =
        disk_write_idx_lem ((l.fat_start + s) % u32_mod) b h in_disk (length-fat_sector l v idx) in
      let g' = update g ((l.fat_start + s) % u32_mod) b in
      let later : l.fat_start + (s + 1) + k ≤ n = omega arith in
      let next : min l.total_blocks (idx + per_sector) ≡ entry_of l (s + 1) = omega arith in
      let more =
        flush_sectors_lem g' k (s + 1) (min l.total_blocks (idx + per_sector))
          (record st { link = w.end }) w.post later next in
      record {
        end = more.end;
        sectors = more.sectors;
        eq = step _ (on_link_lem st w) ∙ more.eq;
        holds = more.holds;
        here = λ j a lt. elim (ℕ_discrete j s) [
          | yes same ↦
              ap (λ j. more.sectors (l.fat_start + j)) same
              ∙ more.elsewhere at (inl (omega arith))
              ∙ ap g' (sym wraps)
              ∙ update_self g ((l.fat_start + s) % u32_mod) b
              ∙ ap (fat_sector l v) (e ∙ ap (entry_of l) (sym same))
          | no ne ↦ more.here j (omega arith) (omega arith)
        ];
        elsewhere = λ i out.
            more.elsewhere i (omega arith)
            ∙ update_ne g ((l.fat_start + s) % u32_mod) b i (omega arith);
      }

-- On a connection that holds sectors, with the table loaded and its sectors on the disk, fat_flush
-- writes every piece of the table to its sector and changes no other sector.
pub fat_flush-Flushed :
    (n : ℕ) (g : ℕ → Bytes) (st : Fs)
    → Holds n g st.link
    → st.fat.loaded ≡ true
    → st.layout.fat_start + st.layout.fat_sectors ≤ n
    → Flushed n g st.layout st.fat.v 0 st.layout.fat_sectors fat_flush st
unfolding fat_flush
fat_flush-Flushed n g st h loaded le =
    let f =
      flush_sectors_lem n st.layout st.fat.v g st.layout.fat_sectors 0 0 st h (omega arith)
        (omega arith) in
    record {
      end = f.end;
      sectors = f.sectors;
      eq =
          ap
            (λ t.
              if t
              then flush_sectors st.layout st.fat.v st.layout.fat_sectors 0 0 st
              else (ok tt, st))
            loaded
          ∙ f.eq;
      holds = f.holds;
      here = f.here;
      elsewhere = f.elsewhere;
    }
