-- ===== src/Fs/Files/Storing.antt =====
-- cmd_write on consistent files.
use mathlib.Core.Path.{subst}
use cs4440proj3_final.Prelude.{
  ℕ, ◌+◌, ◌*◌, ◌≤◌, ◌<◌, ◌≡◌, ◌≢◌, ap, sym, ◌∙◌, Option, none, some, List, [], ◌∷◌, Bytes, length,
  arith, All,
}
use cs4440proj3_final.Fs.Exec.{ok, ◌>>=◌, ◌>>◌, step}
use cs4440proj3_final.Fs.Words.{u32_mod}
use cs4440proj3_final.Fs.Link.Laws.{update, update_self}
use cs4440proj3_final.Fs.Dirent.{Dirent}
use cs4440proj3_final.Fs.State.{Fs}
use cs4440proj3_final.Fs.Fat.{fat_load}
use cs4440proj3_final.Fs.Fat.Tables.{free_from}
use cs4440proj3_final.Fs.Fat.Chains.{Chain}
use cs4440proj3_final.Fs.Fat.Replace.{Disjoint, behind-Data}
use cs4440proj3_final.Fs.File.{blocks_for, data_start}
use cs4440proj3_final.Fs.File.Stored.{Stored-same, Covers}
use cs4440proj3_final.Fs.Directory.Entries.{entry_at}
use cs4440proj3_final.Fs.Directory.Search.{matches}
use cs4440proj3_final.Fs.Protocol.{status}
use cs4440proj3_final.Fs.Commands.{code, found, write_found, cmd_write}
use cs4440proj3_final.Fs.Commands.Creating.{loaded_lem, handled}
use cs4440proj3_final.Fs.Commands.Reading.{find_known}
use cs4440proj3_final.Fs.Commands.Writing.{Mounted, Target}
use cs4440proj3_final.Fs.Commands.Replacing.{
  kept, matches-same, w, p, dir-same, data-same, write_runs,
}
use cs4440proj3_final.Fs.Files.{IsName, Held, InUse, Has, IsConsistent, Agrees, Stands}
use cs4440proj3_final.Fs.Files.Changing.{Changed, Changed-Stands, Agrees-kept}
use cs4440proj3_final.Fs.Files.Lookup.{
  Has-InUse, Has-Target, other_name, Agrees-assign, Stands-link,
}
use cs4440proj3_final.Fs.Files.Maps.{assign}
use cs4440proj3_final.Fs.Files.Steps.{start_lem, table-Mounted}

-- two steps that leave some sectors as they were
same_twice :
    (g g' g'' : ℕ → Bytes) (bs : List ℕ)
    → All (λ b. g'' b ≡ g' b) bs
    → All (λ b. g' b ≡ g b) bs
    → All (λ b. g'' b ≡ g b) bs
same_twice g g' g'' [] x y = tt
same_twice g g' g'' (b ∷ bs) x y = (x.0 ∙ y.0, same_twice g g' g'' bs x.1 y.1)

module _ {n : ℕ} {g : ℕ → Bytes} {s : Fs} (c : IsConsistent n g s) (name bytes : Bytes)
    (ok_name : IsName name) (i : ℕ) (h : Has s.layout g name i)
    (small : length bytes + 127 < u32_mod)
    (room : blocks_for (length bytes)
      ≤ free_from (data_start s.layout) s.fat.v + length (c.blocks i)) where
  abbrev m : Mounted n g s
  m = c.mounted

  abbrev t : Target g s name
  t = Has-Target c name ok_name i h

  abbrev new_sectors : ℕ → Bytes
  new_sectors = (p m name bytes t small room).sectors

  abbrev new_blocks : List ℕ
  new_blocks = (w m name bytes t small room).blocks

  abbrev new_table : List ℕ
  new_table = (w m name bytes t small room).table

  -- The entry has the names that it had.
  same_names :
      (x : Bytes) → matches x (entry_at s.layout new_sectors i) ≡ matches x (entry_at s.layout g i)
  same_names x =
      ap (matches x) (p m name bytes t small room).here
      ∙ matches-same x (entry_at s.layout g i) (w m name bytes t small room).entry
          (w m name bytes t small room).name (w m name bytes t small room).used

  other_kept :
      (j : ℕ)
      → InUse s.layout g j
      → j ≢ i
      → Chain new_table (entry_at s.layout g j).first (c.blocks j)
        × All (λ b. (w m name bytes t small room).sectors b ≡ g b) (c.blocks j)
        × Disjoint new_blocks (c.blocks j)
  other_kept j u ne =
      let file = c.held j u in
      (w m name bytes t small room).others (entry_at s.layout g j).first (c.blocks j) file.chain
        (behind-Data (data_start s.layout) (c.blocks j) (omega (arith, start_lem m, m.has_dir))
          file.behind)
        (c.apart i j (Has-InUse s.layout g name i h) u (λ e. ne (sym e)))

  write_held : Held n new_sectors s.layout new_table i new_blocks bytes
  write_held =
      let r = w m name bytes t small room in
      let here = (p m name bytes t small room).here in
      record {
        chain = subst (λ (e : Dirent). Chain new_table e.first new_blocks) (sym here) r.chain;
        distinct = r.distinct;
        behind = r.behind;
        in_disk = r.in_disk;
        stored =
            Stored-same r.sectors new_sectors new_blocks bytes 0
              (kept (data_start s.layout) r.sectors new_sectors new_blocks
                (data-same m name bytes t small room) r.behind)
              r.stored;
        len = ap (λ (e : Dirent). e.len) here ∙ r.len;
        covers = subst (λ (e : Dirent). Covers (length new_blocks) e.len) (sym here) r.covers;
      }

  write_changes :
      Changed n g s c i new_blocks bytes new_sectors new_table (p m name bytes t small room).end
  write_changes = record {
    mounted =
        table-Mounted m new_sectors new_table _ (p m name bytes t small room).holds
          (w m name bytes t small room).size;
    slots = λ j lt ne.
        (p m name bytes t small room).slots j lt ne ∙ dir-same m name bytes t small room j lt;
    others = λ j u ne.
        let file = other_kept j u ne in
        (
          file.0,
          same_twice g (w m name bytes t small room).sectors new_sectors (c.blocks j)
              (kept (data_start s.layout) (w m name bytes t small room).sectors new_sectors
                (c.blocks j) (data-same m name bytes t small room) (c.held j u).behind)
              file.1,
        );
    here = λ u. write_held;
    own = λ j u ne. (other_kept j u ne).2;
    names = λ x j valid at hj ne. ne (c.unique x j i valid hj (h.0, sym (same_names x) ∙ at));
  }

  write-Agrees :
      (x : Bytes) (o : Option Bytes)
      → IsName x
      → x ≢ name
      → Agrees s.layout g c.bytes x o
      → Agrees s.layout new_sectors (update c.bytes i bytes) x o
  write-Agrees x o valid ne =
      let before = other_name c name ok_name i h x valid ne in
      Agrees-kept write_changes x o before (same_names x ∙ before)

  write_here : Agrees s.layout new_sectors (update c.bytes i bytes) name (some bytes)
  write_here = (i, (h.0, same_names name ∙ h.1), update_self c.bytes i bytes)

-- What cmd_write should reply where the map has this under the name.
abbrev pub write_answer : Option Bytes → Bytes
write_answer none = status b'1'
write_answer (some b) = status b'0'

-- The map after a write: a name that it does not have stays out.
abbrev pub overwrite_in :
    Bytes → Bytes → Option Bytes → (Bytes → Option Bytes) → Bytes → Option Bytes
overwrite_in name bytes none files = files
overwrite_in name bytes (some b) files = assign name (some bytes) files

-- There is space for `size` bytes in the file of the name, its old blocks counted in.
abbrev pub Room :
    (n : ℕ) (files : Bytes → Option Bytes) (s : Fs) → Stands n files s → Bytes → ℕ → Type 0
Room n files s st name size =
    (i : ℕ)
    → Has s.layout st.g name i
    → size ≤ 128 * (free_from (data_start s.layout) s.fat.v + length (st.consistent.blocks i))

module _ {n : ℕ} {files : Bytes → Option Bytes} {s : Fs} (st : Stands n files s)
    (name bytes : Bytes) (ok_name : IsName name) (small : length bytes + 127 < u32_mod)
    (room : Room n files s st name (length bytes)) where
  write_known :
      (o : Option Bytes)
      → Agrees s.layout st.g st.consistent.bytes name o
      → (s' : Fs) × (cmd_write name bytes s ≡ (ok (write_answer o), s'))
        × Stands n (overwrite_in name bytes o files) s'
  unfolding cmd_write write_found blocks_for
  write_known none a =
      let run = st.consistent.mounted.running in
      let q = find_known name none run (λ j le lt. a j (omega arith)) in
      (
        record s { link = q.end },
        handled (code b'2') (code b'2') (fat_load >> (found name >>= write_found bytes)) s
            run.formatted (step _ (loaded_lem s run.loaded) ∙ step _ q.eq),
        Stands-link st q.holds,
      )
  write_known (some b) (i, h, same) =
      let c = st.consistent in
      let roomy = room i h in
      let fit : blocks_for (length bytes)
          ≤ free_from (data_start s.layout) s.fat.v + length (st.consistent.blocks i) =
        omega arith in
      let t = Has-Target c name ok_name i h in
      (
        _,
        write_runs c.mounted name bytes t small fit,
        Changed-Stands (write_changes c name bytes ok_name i h small fit) (
            Agrees-assign s.layout _ _ name (some bytes) files
              (write_here c name bytes ok_name i h small fit)
              (λ x valid ne.
                write-Agrees c name bytes ok_name i h small fit x (files x) valid ne
                  (st.agrees x valid))),
      )

  -- On a server that stands for a map, with fewer than 2 ^ 32 - 127 bytes of new contents and space for
  -- them, cmd_write of a name replies with 0 if the map has the name, and then the server stands for the map with the new contents under the
  -- name; if the map has not the name, the reply is 1 and the map is unchanged.
  pub cmd_write-Stands :
      (s' : Fs) × (cmd_write name bytes s ≡ (ok (write_answer (files name)), s'))
      × Stands n (overwrite_in name bytes (files name) files) s'
  cmd_write-Stands = write_known (files name) (st.agrees name ok_name)
