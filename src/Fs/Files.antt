-- ===== src/Fs/Files.antt =====
-- The files of fs_server.c as a whole: when the directory, the FAT and the sectors agree, and which
-- map from names to contents they stand for.
pub mod Naming
pub mod Changing
pub mod Lookup
pub mod Listing
pub mod Steps
pub mod Clearing
pub mod Formatting
pub mod Maps
pub mod Deleting
pub mod Making
pub mod Storing
pub mod Sessions
use cs4440proj3_final.Prelude.{
  ℕ, ◌+◌, ◌*◌, ◌≤◌, ◌<◌, ◌≡◌, ◌≢◌, true, false, Option, none, some, List, Bytes, length, ◌==◌, All,
}
use cs4440proj3_final.Text.Strings.{NoNul}
use cs4440proj3_final.Fs.Layout.{Layout}
use cs4440proj3_final.Fs.Link.Laws.{Holds}
use cs4440proj3_final.Fs.Dirent.{Dirent, max_name}
use cs4440proj3_final.Fs.State.{Fs}
use cs4440proj3_final.Fs.Fat.Chains.{Chain, Distinct}
use cs4440proj3_final.Fs.Fat.Replace.{Disjoint}
use cs4440proj3_final.Fs.File.{data_start}
use cs4440proj3_final.Fs.File.Stored.{Stored, Covers}
use cs4440proj3_final.Fs.Directory.Entries.{entry_at}
use cs4440proj3_final.Fs.Directory.Search.{matches}
use cs4440proj3_final.Fs.Commands.Writing.{Mounted}

-- The names that the server takes as they are.
abbrev pub IsName : Bytes → Type 0
IsName name = NoNul name × (0 < length name) × (length name < max_name)

-- The file in slot `i`: its entry has the head of a chain of these blocks in the data area, and they
-- store these bytes.
pub record Held (n : ℕ) (g : ℕ → Bytes) (l : Layout) (v : List ℕ) (i : ℕ) (blocks : List ℕ)
    (bytes : Bytes) : Type 0 where
  pub chain : Chain v (entry_at l g i).first blocks
  pub distinct : Distinct blocks
  pub behind : All (λ b. data_start l ≤ b) blocks
  pub in_disk : All (λ b. b < n) blocks
  pub stored : Stored g blocks bytes 0
  pub len : (entry_at l g i).len ≡ length bytes
  pub covers : Covers (length blocks) (entry_at l g i).len

abbrev pub InUse : Layout → (ℕ → Bytes) → ℕ → Type 0
InUse l g i = (i < l.dir_entries) × (((entry_at l g i).used == 0) ≡ false)

abbrev pub Has : Layout → (ℕ → Bytes) → Bytes → ℕ → Type 0
Has l g name i = (i < l.dir_entries) × (matches name (entry_at l g i) ≡ true)

-- Every entry in use is a file, no two files share a block, and no two have one name.
pub record IsConsistent (n : ℕ) (g : ℕ → Bytes) (s : Fs) : Type 0 where
  pub mounted : Mounted n g s
  pub blocks : ℕ → List ℕ
  pub bytes : ℕ → Bytes
  pub held : (i : ℕ) → InUse s.layout g i → Held n g s.layout s.fat.v i (blocks i) (bytes i)
  pub apart :
      (i j : ℕ) → InUse s.layout g i → InUse s.layout g j → i ≢ j → Disjoint (blocks i) (blocks j)
  pub unique :
      (name : Bytes) (i j : ℕ) → IsName name → Has s.layout g name i → Has s.layout g name j → i ≡ j

-- Every slot of the directory is in use.
abbrev pub IsFull : ℕ → Fs → Type 0
IsFull n s =
    (g : ℕ → Bytes) × Holds n g s.link
    × ((i : ℕ) → i < s.layout.dir_entries → ((entry_at s.layout g i).used == 0) ≡ false)

-- What the directory has under a name.
abbrev pub Agrees : Layout → (ℕ → Bytes) → (ℕ → Bytes) → Bytes → Option Bytes → Type 0
Agrees l g bytes name none = (j : ℕ) → j < l.dir_entries → matches name (entry_at l g j) ≡ false
Agrees l g bytes name (some b) = (i : ℕ) × Has l g name i × (bytes i ≡ b)

-- The state of the server stands for the map `files`.
pub record Stands (n : ℕ) (files : Bytes → Option Bytes) (s : Fs) : Type 0 where
  pub g : ℕ → Bytes
  pub consistent : IsConsistent n g s
  pub agrees : (name : Bytes) → IsName name → Agrees s.layout g consistent.bytes name (files name)
