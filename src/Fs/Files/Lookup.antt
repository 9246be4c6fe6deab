-- ===== src/Fs/Files/Lookup.antt =====
-- Looking up a name in consistent files, and cmd_read on them.
use mathlib.Core.Path.{subst}
use cs4440proj3_final.Prelude.{
  ℕ, ◌≡◌, ◌≢◌, ap, sym, ◌∙◌, inl, inr, false, Option, none, some, Bytes, length, arith, Bool-cases,
}
use cs4440proj3_final.Fs.Exec.{ok}
use cs4440proj3_final.Fs.Link.{Link}
use cs4440proj3_final.Fs.Link.Laws.{Holds}
use cs4440proj3_final.Fs.Layout.{Layout}
use cs4440proj3_final.Fs.State.{Fs}
use cs4440proj3_final.Fs.File.Reading.{Quiet}
use cs4440proj3_final.Fs.Directory.Entries.{entry_at}
use cs4440proj3_final.Fs.Directory.Search.{matches, IsFirst}
use cs4440proj3_final.Fs.Protocol.{file_reply, no_file}
use cs4440proj3_final.Fs.Commands.{read_reply, cmd_read}
use cs4440proj3_final.Fs.Commands.Reading.{File, cmd_read-File, cmd_read-absent}
use cs4440proj3_final.Fs.Commands.Writing.{Mounted, Target}
use cs4440proj3_final.Fs.Files.Naming.{matches-functional}
use cs4440proj3_final.Fs.Files.Maps.{Bytes-discrete, assign, assign_self, assign_ne}
use cs4440proj3_final.Fs.Files.{IsName, Held, InUse, Has, IsConsistent, Agrees, Stands}

pub Has-InUse : (l : Layout) (g : ℕ → Bytes) (name : Bytes) (i : ℕ) → Has l g name i → InUse l g i
Has-InUse l g name i h = (h.0, ground (arith, h.1))

-- another connection that holds the same sectors
Mounted-link :
    {n : ℕ} {g : ℕ → Bytes} {s : Fs} {l : Link}
    → Mounted n g s
    → Holds n g l
    → Mounted n g (record s { link = l })
Mounted-link m h = record {
  running = record {
    holds = h;
    formatted = m.running.formatted;
    loaded = m.running.loaded;
    fits = m.running.fits;
  };
  table = m.table;
  on_disk = m.on_disk;
  fat_region = m.fat_region;
  dir_region = m.dir_region;
  has_dir = m.has_dir;
  data_region = m.data_region;
}

pub Stands-link :
    {n : ℕ} {files : Bytes → Option Bytes} {s : Fs} {l : Link} (st : Stands n files s)
    → Holds n st.g l
    → Stands n files (record s { link = l })
Stands-link st h =
    let c = st.consistent in
    record {
      g = st.g;
      consistent = record {
        mounted = Mounted-link c.mounted h;
        blocks = c.blocks;
        bytes = c.bytes;
        held = c.held;
        apart = c.apart;
        unique = c.unique;
      };
      agrees = st.agrees;
    }

-- the same map
pub Stands-ext :
    {n : ℕ} {files files' : Bytes → Option Bytes} {s : Fs}
    → ((x : Bytes) → files' x ≡ files x)
    → Stands n files s
    → Stands n files' s
Stands-ext {s} same st = record {
  g = st.g;
  consistent = st.consistent;
  agrees = λ x valid.
      subst (Agrees s.layout st.g st.consistent.bytes x) (sym (same x)) (st.agrees x valid);
}

-- A directory that has one name as it should be, and the others as in the map.
pub Agrees-assign :
    (l : Layout) (g : ℕ → Bytes) (bytes : ℕ → Bytes) (name : Bytes) (o : Option Bytes)
    (files : Bytes → Option Bytes)
    → Agrees l g bytes name o
    → ((x : Bytes) → IsName x → x ≢ name → Agrees l g bytes x (files x))
    → (x : Bytes) → IsName x
    → Agrees l g bytes x (assign name o files x)
Agrees-assign l g bytes name o files here others x valid = elim (Bytes-discrete x name) [
  | yes e ↦
      subst (λ y. Agrees l g bytes y (assign name o files y)) (sym e)
        (subst (Agrees l g bytes name) (sym (assign_self name o files)) here)
  | no ne ↦ subst (Agrees l g bytes x) (sym (assign_ne name o files x ne)) (others x valid ne)
]

module _ {n : ℕ} {g : ℕ → Bytes} {s : Fs} (c : IsConsistent n g s) (name : Bytes)
    (ok_name : IsName name) (i : ℕ) (h : Has s.layout g name i) where
  -- It is the first entry with the name, since it is the only one.
  pub Has-IsFirst :
      IsFirst (λ j. matches name (entry_at s.layout g j)) 0 s.layout.dir_entries (some i)
  Has-IsFirst = (
    omega arith,
    omega (arith, h.0),
    h.1,
    λ j le lt. elim (Bool-cases (matches name (entry_at s.layout g j))) [
      | inl at ↦ absurd (omega (arith, c.unique name j i ok_name (omega (arith, h.0), at) h))
      | inr not_at ↦ not_at
    ],
  )

  abbrev file_held : Held n g s.layout s.fat.v i (c.blocks i) (c.bytes i)
  file_held = c.held i (Has-InUse s.layout g name i h)

  Has-File : File n g s name (c.bytes i)
  Has-File = record {
    slot = i;
    first = Has-IsFirst;
    blocks = c.blocks i;
    chain = file_held.chain;
    in_disk = file_held.in_disk;
    stored = file_held.stored;
    len = file_held.len;
    covers = file_held.covers;
  }

  abbrev pub Has-Target : Target g s name
  Has-Target = record {
    slot = i;
    first = Has-IsFirst;
    old = c.blocks i;
    chain = file_held.chain;
    distinct = file_held.distinct;
    behind = file_held.behind;
  }

  -- The file has no other name.
  pub other_name : (x : Bytes) → IsName x → x ≢ name → matches x (entry_at s.layout g i) ≡ false
  other_name x valid ne = elim (Bool-cases (matches x (entry_at s.layout g i))) [
    | inl at ↦ absurd (
        ne (
          matches-functional (entry_at s.layout g i) x name valid.0 ok_name.0 valid.2 ok_name.2 at
            h.1))
    | inr not_at ↦ not_at
  ]

-- What cmd_read should reply where the map has this under the name.
abbrev pub read_answer : Option Bytes → Bytes
read_answer none = no_file
read_answer (some b) = file_reply b

module _ {n : ℕ} {files : Bytes → Option Bytes} {s : Fs} (st : Stands n files s) (name : Bytes)
    (ok_name : IsName name) where
  read_known :
      (o : Option Bytes)
      → Agrees s.layout st.g st.consistent.bytes name o
      → Quiet n st.g (cmd_read name) s (read_answer o)
  unfolding read_reply
  read_known none a = cmd_read-absent name st.consistent.mounted.running a
  read_known (some b) (i, h, e) =
      let q =
        cmd_read-File name (st.consistent.bytes i) st.consistent.mounted.running
          (Has-File st.consistent name ok_name i h) in
      record {
        end = q.end;
        eq = q.eq ∙ ap (λ k. (ok (read_reply (length k) k), record s { link = q.end })) e;
        holds = q.holds;
      }

  -- On a server that stands for a map, cmd_read of a name replies what the map has, and the server still
  -- stands for the map.
  pub cmd_read-Stands :
      (s' : Fs) × (cmd_read name s ≡ (ok (read_answer (files name)), s')) × Stands n files s'
  cmd_read-Stands =
      let q = read_known (files name) (st.agrees name ok_name) in
      (record s { link = q.end }, q.eq, Stands-link st q.holds)
