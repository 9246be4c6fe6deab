-- ===== src/Fs/Files/Deleting.antt =====
-- cmd_delete on consistent files.
use mathlib.Core.Bool.{false≢true}
use mathlib.Core.Path.{subst}
use native.Mathlib.Decide.{ℕ_discrete}
use cs4440proj3_final.Prelude.{
  ℕ, ◌≤◌, ◌<◌, ◌≡◌, ◌≢◌, refl, ap, sym, ◌∙◌, inl, inr, false, not, ◌&&◌, Option, none, some, List,
  [], Bytes, if◌then◌else◌, ◌==◌, arith, Bool-cases,
}
use cs4440proj3_final.Fs.Exec.{ok, ◌>>=◌, ◌>>◌, step}
use cs4440proj3_final.Fs.Link.Laws.{update}
use cs4440proj3_final.Fs.Dirent.{Dirent}
use cs4440proj3_final.Fs.Dirent.Packing.{IsPackable}
use cs4440proj3_final.Fs.State.{Fs, put_table}
use cs4440proj3_final.Fs.Fat.{fat_eof, fat_load, fat_flush}
use cs4440proj3_final.Fs.Fat.Chains.{clear, length-clear}
use cs4440proj3_final.Fs.File.{data_start, release, skip}
use cs4440proj3_final.Fs.File.Reading.{Quiet}
use cs4440proj3_final.Fs.File.Release.{Ready, release_old}
use cs4440proj3_final.Fs.Fat.Flushing.{Flushed}
use cs4440proj3_final.Fs.Directory.{slot_sector, dir_write_entry}
use cs4440proj3_final.Fs.Directory.Entries.{
  entry_at, entry_at-same, PutEntry, dir_write_entry-PutEntry,
}
use cs4440proj3_final.Fs.Directory.Search.{matches}
use cs4440proj3_final.Fs.Protocol.{status}
use cs4440proj3_final.Fs.Commands.{code, blank, found, delete_found, cmd_delete}
use cs4440proj3_final.Fs.Commands.Creating.{loaded_lem, handled}
use cs4440proj3_final.Fs.Commands.Reading.{find_known}
use cs4440proj3_final.Fs.Commands.Writing.{Mounted, Target, query, ready}
use cs4440proj3_final.Fs.Commands.Replacing.{kept}
use cs4440proj3_final.Fs.Files.{IsName, Has, IsConsistent, Agrees, Stands}
use cs4440proj3_final.Fs.Files.Changing.{Disjoint-nil, Changed, Changed-Stands, Agrees-kept}
use cs4440proj3_final.Fs.Files.Lookup.{
  Agrees-assign, Stands-ext, Has-InUse, Has-Target, other_name, Stands-link,
}
use cs4440proj3_final.Fs.Files.Maps.{assign, assign_same}
use cs4440proj3_final.Fs.Files.Steps.{
  clear-Chain, start_lem, slot_region, flushed, flushed-same, put-data, table-Mounted,
}

blank-IsPackable : IsPackable blank
blank-IsPackable = record {
  array = refl;
  terminated = refl;
  len_fits = omega arith;
  first_fits = omega arith;
}

blank-unused : (name : Bytes) (e : Dirent) → e ≡ blank → matches name e ≡ false
blank-unused name e h = ap (matches name) h

-- the test of cmd_delete, which does not look at `used`
release_chain :
    {n : ℕ} {g : ℕ → Bytes} {e : Dirent} {old : List ℕ} {s : Fs}
    → Ready n g e old s
    → (if not (e.first == fat_eof) then release e.first else skip) s
      ≡ (ok tt, put_table (clear old s.fat.v) s)
release_chain {e} {old} {s} r =
    let is_used : (e.used == 0) ≡ false = ground (arith, r.used) in
    subst
      (λ b.
        (if not b && not (e.first == fat_eof) then release e.first else skip) s
        ≡ (ok tt, put_table (clear old s.fat.v) s))
      is_used (release_old r)

module _ {n : ℕ} {g : ℕ → Bytes} {s : Fs} (c : IsConsistent n g s) (name : Bytes)
    (ok_name : IsName name) (i : ℕ) (h : Has s.layout g name i) where
  abbrev m : Mounted n g s
  m = c.mounted

  abbrev t : Target g s name
  t = Has-Target c name ok_name i h

  abbrev freed : List ℕ
  freed = clear (c.blocks i) s.fat.v

  abbrev q : Quiet n g (found name) s (some (i, entry_at s.layout g i))
  q = query m name [] t

  abbrev f :
      Flushed n g s.layout freed 0 s.layout.fat_sectors fat_flush
        (record (put_table freed s) { link = q.end })
  f = flushed m g freed q.end q.holds

  abbrev after_flush : Fs
  after_flush = record (put_table freed s) { link = f.end }

  -- the entry is cleared
  abbrev p : PutEntry n f.sectors s.layout i blank (dir_write_entry s.layout i blank) after_flush tt
  p =
      dir_write_entry-PutEntry n f.sectors s.layout i blank m.running.holds.disk.small
        m.running.fits h.0 after_flush f.holds blank-IsPackable

  abbrev deleted : Fs
  deleted = record (put_table freed s) { link = p.end }

  delete_runs : cmd_delete name s ≡ (ok (code b'0'), deleted)
  unfolding cmd_delete delete_found
  delete_runs =
      handled (code b'2') (code b'2') (fat_load >> (found name >>= delete_found)) s
        m.running.formatted
        (step _ (loaded_lem s m.running.loaded)
          ∙ step _ q.eq
          ∙ step _ (release_chain (ready m name [] t))
          ∙ step _ f.eq
          ∙ step _ p.eq)

  slots_same :
      (j : ℕ)
      → j < s.layout.dir_entries
      → j ≢ i
      → entry_at s.layout p.sectors j ≡ entry_at s.layout g j
  slots_same j lt ne =
      p.slots j lt ne
      ∙ entry_at-same s.layout g f.sectors j
          (flushed-same m g freed q.end q.holds (slot_sector s.layout j) (slot_region m j lt).0)

  data_same : (b : ℕ) → data_start s.layout ≤ b → p.sectors b ≡ g b
  data_same b le =
      put-data m p h.0 b le ∙ flushed-same m g freed q.end q.holds b (omega (arith, start_lem m))

  delete_changes : Changed n g s c i [] [] p.sectors freed p.end
  delete_changes = record {
    mounted = table-Mounted m p.sectors freed p.end p.holds (length-clear (c.blocks i) s.fat.v);
    slots = slots_same;
    others = λ j u ne.
        let file = c.held j u in
        (
          clear-Chain s.fat.v (c.blocks i) (entry_at s.layout g j).first (c.blocks j)
              (c.apart i j (Has-InUse s.layout g name i h) u (λ e. ne (sym e))) file.chain,
          kept (data_start s.layout) g p.sectors (c.blocks j) data_same file.behind,
        );
    here = λ u. absurd (false≢true (sym u.1 ∙ ap (λ (e : Dirent). e.used == 0) p.here));
    own = λ j u ne. Disjoint-nil (c.blocks j);
    names = λ x j valid at hj ne. false≢true (sym (blank-unused x _ p.here) ∙ at);
  }

  -- The name is gone, and every other name means what it meant.
  delete-Agrees :
      (x : Bytes) (o : Option Bytes)
      → IsName x
      → x ≢ name
      → Agrees s.layout g c.bytes x o
      → Agrees s.layout p.sectors (update c.bytes i []) x o
  delete-Agrees x o valid ne a =
      Agrees-kept delete_changes x o (other_name c name ok_name i h x valid ne)
        (blank-unused x _ p.here) a

  delete_absent :
      (j : ℕ) → j < s.layout.dir_entries → matches name (entry_at s.layout p.sectors j) ≡ false
  delete_absent j lt = elim (ℕ_discrete j i) [
    | yes e ↦ ap (λ k. matches name (entry_at s.layout p.sectors k)) e ∙ blank-unused name _ p.here
    | no ne ↦
        ap (matches name) (slots_same j lt ne)
        ∙ (elim (Bool-cases (matches name (entry_at s.layout g j))) [
          | inl at ↦ absurd (ne (c.unique name j i ok_name (lt, at) h))
          | inr not_at ↦ not_at
        ])
  ]

-- What cmd_delete should reply where the map has this under the name.
abbrev pub delete_answer : Option Bytes → Bytes
delete_answer none = status b'1'
delete_answer (some b) = status b'0'

module _ {n : ℕ} {files : Bytes → Option Bytes} {s : Fs} (st : Stands n files s) (name : Bytes)
    (ok_name : IsName name) where
  delete_known :
      (o : Option Bytes)
      → files name ≡ o
      → Agrees s.layout st.g st.consistent.bytes name o
      → (s' : Fs) × (cmd_delete name s ≡ (ok (delete_answer o), s'))
        × Stands n (assign name none files) s'
  unfolding cmd_delete delete_found
  delete_known none e a =
      let run = st.consistent.mounted.running in
      let q = find_known name none run (λ j le lt. a j (omega arith)) in
      (
        record s { link = q.end },
        handled (code b'2') (code b'2') (fat_load >> (found name >>= delete_found)) s run.formatted
            (step _ (loaded_lem s run.loaded) ∙ step _ q.eq),
        Stands-ext (λ x. ap (λ o. assign name o files x) (sym e) ∙ assign_same name files x)
            (Stands-link st q.holds),
      )
  delete_known (some b) e (i, h, same) =
      let c = st.consistent in
      (
        deleted c name ok_name i h,
        delete_runs c name ok_name i h,
        Changed-Stands (delete_changes c name ok_name i h) (
            Agrees-assign s.layout (p c name ok_name i h).sectors (update c.bytes i []) name none
              files (delete_absent c name ok_name i h)
              (λ x valid ne.
                delete-Agrees c name ok_name i h x (files x) valid ne (st.agrees x valid))),
      )

  -- On a server that stands for a map, cmd_delete of a name replies with 0 if the map has the name and
  -- with 1 if not, and then the server stands for the map without the name.
  pub cmd_delete-Stands :
      (s' : Fs) × (cmd_delete name s ≡ (ok (delete_answer (files name)), s'))
      × Stands n (assign name none files) s'
  cmd_delete-Stands = delete_known (files name) refl (st.agrees name ok_name)
