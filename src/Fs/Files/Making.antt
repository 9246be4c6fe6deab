-- ===== src/Fs/Files/Making.antt =====
-- cmd_create on consistent files.
use mathlib.Core.Bool.{false≢true}
use cs4440proj3_final.Prelude.{
  ℕ, ◌<◌, ◌≡◌, ◌≢◌, refl, ap, sym, ◌∙◌, inl, inr, true, false, Option, none, some, [], Bytes, ◌==◌,
  arith, Bool-cases,
}
use cs4440proj3_final.Fs.Exec.{ok}
use cs4440proj3_final.Fs.Link.Laws.{update, update_self}
use cs4440proj3_final.Fs.Dirent.{Dirent}
use cs4440proj3_final.Fs.State.{Fs}
use cs4440proj3_final.Fs.File.{data_start}
use cs4440proj3_final.Fs.Directory.Entries.{entry_at, PutEntry}
use cs4440proj3_final.Fs.Directory.Search.{matches}
use cs4440proj3_final.Fs.Protocol.{status}
use cs4440proj3_final.Fs.Commands.{code, new_entry, cmd_create}
use cs4440proj3_final.Fs.Commands.Creating.{Created, exists, full, made, cmd_create-Created}
use cs4440proj3_final.Fs.Commands.Reading.{new_entry-matches}
use cs4440proj3_final.Fs.Commands.Replacing.{kept}
use cs4440proj3_final.Fs.Files.{IsFull, IsName, Held, IsConsistent, Agrees, Stands}
use cs4440proj3_final.Fs.Files.Naming.{new_entry-injective}
use cs4440proj3_final.Fs.Files.Changing.{Disjoint-nil, Changed, Changed-Stands, Agrees-kept}
use cs4440proj3_final.Fs.Files.Lookup.{Agrees-assign, Stands-link}
use cs4440proj3_final.Fs.Files.Maps.{assign}
use cs4440proj3_final.Fs.Files.Steps.{table-Mounted, put-data}

-- What cmd_create does to a server that stands for a map: the name is there, the directory is full, or
-- the map gets the name with no contents.
pub data Makes (n : ℕ) (files : Bytes → Option Bytes) (name : Bytes) (s : Fs) : Type 0 where
  taken :
      (b : Bytes) (s' : Fs)
      → files name ≡ some b
      → cmd_create name s ≡ (ok (status b'1'), s')
      → Stands n files s'
      → Makes n files name s
  no_slot :
      (s' : Fs)
      → files name ≡ none
      → IsFull n s
      → cmd_create name s ≡ (ok (status b'2'), s')
      → Stands n files s'
      → Makes n files name s
  makes :
      (s' : Fs)
      → files name ≡ none
      → cmd_create name s ≡ (ok (status b'0'), s')
      → Stands n (assign name (some []) files) s'
      → Makes n files name s

module _ {n : ℕ} {g : ℕ → Bytes} {s : Fs} (c : IsConsistent n g s) (name : Bytes)
    (ok_name : IsName name) (i : ℕ) (lt : i < s.layout.dir_entries)
    (free : ((entry_at s.layout g i).used == 0) ≡ true)
    (absent : (j : ℕ) → j < s.layout.dir_entries → matches name (entry_at s.layout g j) ≡ false)
    (w : PutEntry n g s.layout i (new_entry name) (cmd_create name) s (code b'0')) where
  only_name : (x : Bytes) → IsName x → matches x (entry_at s.layout w.sectors i) ≡ true → x ≡ name
  only_name x valid at =
      new_entry-injective name x ok_name.0 valid.0 ok_name.2 valid.2
        (ap (matches x) (sym w.here) ∙ at)

  empty_held : Held n w.sectors s.layout s.fat.v i [] []
  empty_held = record {
    chain = ap (λ (e : Dirent). e.first) w.here;
    distinct = tt;
    behind = tt;
    in_disk = tt;
    stored = tt;
    len = ap (λ (e : Dirent). e.len) w.here;
    covers = record {
      enough = omega (arith, ap (λ (e : Dirent). e.len) w.here);
      needed = omega arith;
    };
  }

  create_changes : Changed n g s c i [] [] w.sectors s.fat.v w.end
  create_changes = record {
    mounted = table-Mounted c.mounted w.sectors s.fat.v w.end w.holds refl;
    slots = w.slots;
    others = λ j u ne.
        let file = c.held j u in
        (
          file.chain,
          kept (data_start s.layout) g w.sectors (c.blocks j) (put-data c.mounted w lt) file.behind,
        );
    here = λ u. empty_held;
    own = λ j u ne. Disjoint-nil (c.blocks j);
    names = λ x j valid at hj ne. false≢true (
        sym (absent j hj.0)
        ∙ ap (λ y. matches y (entry_at s.layout g j)) (sym (only_name x valid at))
        ∙ hj.1);
  }

  create-Agrees :
      (x : Bytes) (o : Option Bytes)
      → IsName x
      → x ≢ name
      → Agrees s.layout g c.bytes x o
      → Agrees s.layout w.sectors (update c.bytes i []) x o
  create-Agrees x o valid ne =
      Agrees-kept create_changes x o (ground (arith, free))
        (elim (Bool-cases (matches x (entry_at s.layout w.sectors i))) [
          | inl at ↦ absurd (ne (only_name x valid at))
          | inr not_at ↦ not_at
        ])

  create_here : Agrees s.layout w.sectors (update c.bytes i []) name (some [])
  create_here = (
    i,
    (lt, ap (matches name) w.here ∙ new_entry-matches name ok_name.2),
    update_self c.bytes i [],
  )

module _ {n : ℕ} {files : Bytes → Option Bytes} {s : Fs} (st : Stands n files s) (name : Bytes)
    (ok_name : IsName name) where
  create_known :
      (o : Option Bytes)
      → files name ≡ o
      → Agrees s.layout st.g st.consistent.bytes name o
      → Created n st.g s name
      → Makes n files name s
  create_known none e a (exists i lt at q) = absurd (false≢true (sym (a i lt) ∙ at))
  create_known (some b) e a (exists i lt at q) =
      taken b (record s { link = q.end }) e q.eq (Stands-link st q.holds)
  create_known none e a (full used absent q) =
      no_slot (record s { link = q.end }) e (st.g, st.consistent.mounted.running.holds, used) q.eq
        (Stands-link st q.holds)
  create_known (some b) e (i, h, same) (full used absent q) =
      absurd (false≢true (sym (absent i h.0) ∙ h.1))
  create_known (some b) e (i, h, same) (made j lt free absent w) =
      absurd (false≢true (sym (absent i h.0) ∙ h.1))
  create_known none e a (made i lt free absent w) =
      let c = st.consistent in
      makes (record s { link = w.end }) e w.eq
        (Changed-Stands (create_changes c name ok_name i lt free absent w) (
          Agrees-assign s.layout w.sectors (update c.bytes i []) name (some []) files
            (create_here c name ok_name i lt free absent w)
            (λ x valid ne.
              create-Agrees c name ok_name i lt free absent w x (files x) valid ne
                (st.agrees x valid))))

  -- On a server that stands for a map, cmd_create of a name replies with 1 if the map has the name; else
  -- with 2 and an unchanged map if no slot is free, or with 0, and then the server stands for the map
  -- with the name and no contents.
  pub cmd_create-Makes : Makes n files name s
  cmd_create-Makes =
      create_known (files name) refl (st.agrees name ok_name)
        (cmd_create-Created st.consistent.mounted.running name ok_name.1 ok_name.2)
