-- ===== src/Fs/File/Reading.antt =====
-- read_whole_file of fs_server.c on a file whose blocks are stored.
use mathlib.Core.Path.{subst}
use cs4440proj3_final.Prelude.{
  ℕ, zero, suc, ◌+◌, ◌-◌, ◌<◌, ◌≡◌, refl, ap, ◌∙◌, false, List, [], ◌∷◌, ◌++◌, Bytes, slice, length,
  take, drop, get_elem?, some, min, ◌==◌, arith, All,
}
use cs4440proj3_final.Fs.Exec.{ok, Exec, step}
use cs4440proj3_final.Fs.Link.{Link}
use cs4440proj3_final.Fs.Link.Laws.{Holds}
use cs4440proj3_final.Fs.Link.Reading.{disk_read_idx_lem}
use cs4440proj3_final.Fs.Dirent.{Dirent}
use cs4440proj3_final.Fs.State.{Fs, on_link_lem}
use cs4440proj3_final.Fs.Fat.{fat_eof}
use cs4440proj3_final.Fs.Fat.Chains.{Chain}
use cs4440proj3_final.Fs.File.{fat_get, data_sector, read_blocks, read_whole_file}
use cs4440proj3_final.Fs.File.Stored.{
  piece, Stored, Covers, Covers-next, left-next, take-data_sector, slice-drop, drop-end,
}

-- A run of the server that changes nothing but the connection, which still holds the sectors.
pub record Quiet {A : Type 0} (n : ℕ) (g : ℕ → Bytes) (m : Exec Fs A) (s : Fs) (a : A)
    : Type 0 where
  pub end : Link
  pub eq : m s ≡ (ok a, record s { link = end })
  pub holds : Holds n g end

pub fat_get_lem :
    (s : Fs) (l : Link) (i : ℕ) {x : ℕ}
    → get_elem? s.fat.v i ≡ some x
    → fat_get i (record s { link = l }) ≡ (ok x, record s { link = l })
unfolding fat_get
fat_get_lem s l i e = rw (fat_get, e) refl

module _ (n : ℕ) (g : ℕ → Bytes) (bytes : Bytes) where
  read_blocks_lem :
      (fuel pos left : ℕ) (bs : List ℕ) (cur : ℕ) (s : Fs)
      → Chain s.fat.v cur bs
      → All (λ b. b < n) bs
      → Stored g bs bytes pos
      → length bytes - pos ≡ left
      → Covers (length bs) left
      → left < fuel
      → Holds n g s.link
      → Quiet n g (read_blocks fuel left cur) s (drop pos bytes)
  unfolding read_blocks
  read_blocks_lem zero pos left bs cur s c lt st e cov f h = elim f [ ]
  read_blocks_lem (suc fuel) pos left [] cur s c lt st e cov f h =
      let none_left : left ≡ 0 = omega (arith, cov.enough) in
      record { end = s.link; eq = rw (none_left, drop-end pos bytes (omega arith)) refl; holds = h }
  read_blocks_lem (suc fuel) pos left (b ∷ bs) cur s (same, ne, nxt, at, rest) lt st e cov f h =
      let some_left : (left == 0) ≡ false = ground (arith, cov.needed) in
      let not_eof : (b == fat_eof) ≡ false = ground arith in
      let r = disk_read_idx_lem b h lt.0 in
      let s' : Fs = record s { link = r.end } in
      let taken : take (min left 128) (g b) ≡ slice pos (min left 128) bytes =
        ap (take (min left 128)) (subst (λ k. g b ≡ data_sector bytes pos (min k 128)) e st.0)
        ∙ subst
            (λ k.
              take (min k 128) (data_sector bytes pos (min k 128)) ≡ slice pos (min k 128) bytes)
            e (take-data_sector bytes pos) in
      let whole : take (min left 128) (g b) ++ drop (pos + piece bytes pos) bytes ≡ drop pos bytes =
        ap (λ l. l ++ drop (pos + piece bytes pos) bytes) taken
        ∙ subst
            (λ k.
              slice pos (min k 128) bytes ++ drop (pos + piece bytes pos) bytes ≡ drop pos bytes)
            e (slice-drop pos (piece bytes pos) bytes) in
      let more =
        read_blocks_lem fuel (pos + piece bytes pos) (left - min left 128) bs nxt s' rest lt.1 st.1
          (left-next bytes pos ∙ ap (λ k. k - min k 128) e) (Covers-next (length bs) left cov)
          (omega (arith, cov.needed)) r.post in
      record {
        end = more.end;
        eq =
            rw (some_left, same, not_eof)
              (step _ (on_link_lem s r)
                ∙ step _ (fat_get_lem s r.end b at)
                ∙ step _ more.eq
                ∙ ap (λ x. (ok x, record s { link = more.end })) whole);
        holds = more.holds;
      }

-- On a connection that holds sectors, with a file whose blocks form a chain in the table, store some
-- bytes and are as many as these need, read_whole_file returns these bytes; it changes neither a
-- sector nor the server's state besides the connection.
pub read_whole_file-Stored :
    (n : ℕ) (g : ℕ → Bytes) (e : Dirent) (bs : List ℕ) (bytes : Bytes) (s : Fs)
    → Holds n g s.link
    → Chain s.fat.v e.first bs
    → All (λ b. b < n) bs
    → Stored g bs bytes 0
    → e.len ≡ length bytes
    → Covers (length bs) e.len
    → Quiet n g (read_whole_file e) s bytes
unfolding read_whole_file
read_whole_file-Stored n g e bs bytes s h c lt st size cov =
    read_blocks_lem n g bytes (suc e.len) 0 e.len bs e.first s c lt st (omega arith) cov
      (omega arith) h
