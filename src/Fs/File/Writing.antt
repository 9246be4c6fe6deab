-- ===== src/Fs/File/Writing.antt =====
-- The loop of write_whole_file of fs_server.c that writes the blocks of a chain.
use cs4440proj3_final.Prelude.{
  ℕ, zero, suc, ◌+◌, ◌-◌, ◌<◌, ◌≡◌, ◌≢◌, refl, ap, sym, ◌∙◌, false, ◌||◌, List, [], ◌∷◌, Bytes,
  length, leb, ◌==◌, if◌then◌else◌, arith, All,
}
use cs4440proj3_final.Fs.Exec.{ok, Exec, step}
use cs4440proj3_final.Fs.Link.{Link}
use cs4440proj3_final.Fs.Link.Laws.{Holds, update, update_self, update_ne}
use cs4440proj3_final.Fs.Link.Writing.{disk_write_idx_lem}
use cs4440proj3_final.Fs.State.{Fs, on_link_lem}
use cs4440proj3_final.Fs.Fat.{fat_eof}
use cs4440proj3_final.Fs.Fat.Chains.{Chain, Avoids, Distinct}
use cs4440proj3_final.Fs.File.{data_sector, write_blocks}
use cs4440proj3_final.Fs.File.Stored.{
  piece, Stored, Covers, Covers-next, left-next, length-data_sector,
}
use cs4440proj3_final.Fs.File.Reading.{fat_get_lem}

-- The state after the blocks `bs` were written: they store the bytes from `pos` on, every other
-- sector is as it was, and so is the rest of the server's state.
pub record WroteBlocks {A : Type 0} (n : ℕ) (g : ℕ → Bytes) (bs : List ℕ) (bytes : Bytes) (pos : ℕ)
    (m : Exec Fs A) (s : Fs) (a : A) : Type 0 where
  pub end : Link
  pub sectors : ℕ → Bytes
  pub eq : m s ≡ (ok a, record s { link = end })
  pub holds : Holds n sectors end
  pub here : Stored sectors bs bytes pos
  pub elsewhere : (j : ℕ) → Avoids j bs → sectors j ≡ g j

-- After the last block the table has FAT_EOF, so both tests of the loop agree.
next_block :
    (v : List ℕ) (nxt : ℕ) (bs : List ℕ) (size pos' : ℕ)
    → Chain v nxt bs
    → (0 < length bs → pos' < size)
    → (if (nxt == fat_eof) || leb size pos' then fat_eof else nxt) ≡ nxt
next_block v nxt [] size pos' c more = rw c refl
next_block v nxt (b ∷ bs) size pos' c more =
    let less = more (omega arith) in
    let ne : nxt ≢ fat_eof = omega (arith, c.0, c.1) in ground arith

module _ (n : ℕ) (bytes : Bytes) where
  pub write_blocks_lem :
      (g : ℕ → Bytes) (fuel pos : ℕ) (bs : List ℕ) (cur : ℕ) (s : Fs)
      → Chain s.fat.v cur bs
      → All (λ b. b < n) bs
      → Distinct bs
      → Covers (length bs) (length bytes - pos)
      → length bs < fuel
      → Holds n g s.link
      → WroteBlocks n g bs bytes pos (write_blocks fuel bytes pos cur) s tt
  unfolding write_blocks
  write_blocks_lem g zero pos bs cur s c lt u cov f h = elim f [ ]
  write_blocks_lem g (suc fuel) pos [] cur s c lt u cov f h = record {
    end = s.link;
    sectors = g;
    eq = rw c refl;
    holds = h;
    here = tt;
    elsewhere = λ j out. refl;
  }
  write_blocks_lem g (suc fuel) pos (b ∷ bs) cur s (same, ne, nxt, at, rest) lt u cov f h =
      let not_eof : (b == fat_eof) ≡ false = ground arith in
      let k : ℕ = piece bytes pos in
      let sector : Bytes = data_sector bytes pos k in
      let r = disk_write_idx_lem b sector h lt.0 (length-data_sector bytes pos k) in
      let s' : Fs = record s { link = r.end } in
      let more =
        write_blocks_lem (update g b sector) fuel (pos + k) bs nxt s' rest lt.1 u.1
          (rw (sym (left-next bytes pos)) at (Covers-next (length bs) (length bytes - pos) cov))
          (omega arith) r.post in
      let next =
        next_block s.fat.v nxt bs (length bytes) (pos + k) rest
          (λ some_more. omega (arith, cov.needed)) in
      record {
        end = more.end;
        sectors = more.sectors;
        eq =
            rw (same, not_eof)
              (step _ (on_link_lem s r)
                ∙ step _ (fat_get_lem s r.end b at)
                ∙ ap (λ c. write_blocks fuel bytes (pos + k) c s') next
                ∙ more.eq);
        holds = more.holds;
        here = (more.elsewhere b u.0 ∙ update_self g b sector, more.here);
        elsewhere = λ j out. more.elsewhere j out.1 ∙ update_ne g b sector j out.0;
      }
