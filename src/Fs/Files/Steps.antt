-- ===== src/Fs/Files/Steps.antt =====
-- What the parts of the handlers do to consistent files: the table is written, an entry is written.
use cs4440proj3_final.Prelude.{ℕ, ◌+◌, ◌≤◌, ◌<◌, ◌≡◌, ◌∙◌, inr, List, [], ◌∷◌, Bytes, length, arith}
use cs4440proj3_final.Fs.Exec.{Exec}
use cs4440proj3_final.Fs.Link.{Link}
use cs4440proj3_final.Fs.Link.Laws.{Holds}
use cs4440proj3_final.Fs.Dirent.{Dirent}
use cs4440proj3_final.Fs.State.{Fs, put_table}
use cs4440proj3_final.Fs.Fat.{fat_flush}
use cs4440proj3_final.Fs.Fat.Chains.{Chain, clear, get_elem?-clear_ne}
use cs4440proj3_final.Fs.Fat.Flushing.{Flushed, fat_flush-Flushed}
use cs4440proj3_final.Fs.Fat.Replace.{Disjoint}
use cs4440proj3_final.Fs.File.{data_start}
use cs4440proj3_final.Fs.Directory.{slot_sector}
use cs4440proj3_final.Fs.Directory.Entries.{slot_sector-lt, PutEntry}
use cs4440proj3_final.Fs.Commands.Writing.{Mounted}

-- Freeing a chain leaves another one as it was.
pub clear-Chain :
    (v old : List ℕ) (head : ℕ) (bs : List ℕ)
    → Disjoint old bs
    → Chain v head bs
    → Chain (clear old v) head bs
clear-Chain v old head [] out c = c
clear-Chain v old head (b ∷ bs) out (e, ne, nxt, at, rest) =
    (e, ne, nxt, get_elem?-clear_ne old v b out.0 ∙ at, clear-Chain v old nxt bs out.1 rest)

module _ {n : ℕ} {g : ℕ → Bytes} {s : Fs} (m : Mounted n g s) where
  pub start_lem : data_start s.layout ≡ s.layout.dir_start + s.layout.dir_sectors
  start_lem = omega (arith, m.data_region, m.on_disk, m.running.holds.disk.small)

  -- The directory lies before the data.
  pub slot_region :
      (j : ℕ)
      → j < s.layout.dir_entries
      → (s.layout.dir_start ≤ slot_sector s.layout j)
        × (slot_sector s.layout j < data_start s.layout)
  slot_region j lt =
      let (at, in_disk) =
        slot_sector-lt n s.layout j m.running.fits m.running.holds.disk.small lt in
      (omega arith, omega (arith, start_lem, m.dir_region))

  module _ (g1 : ℕ → Bytes) (v : List ℕ) (l : Link) (h : Holds n g1 l) where
    -- the server with a table that has not been written, on another connection
    abbrev with_table : Fs
    with_table = record (put_table v s) { link = l }

    -- the table is written
    abbrev pub flushed : Flushed n g1 s.layout v 0 s.layout.fat_sectors fat_flush with_table
    flushed =
        fat_flush-Flushed n g1 with_table h m.running.loaded
          (omega (arith, m.fat_region, m.data_region, m.on_disk))

    -- Neither the directory nor the data is in the table.
    pub flushed-same : (k : ℕ) → s.layout.dir_start ≤ k → flushed.sectors k ≡ g1 k
    flushed-same k le = flushed.elsewhere k (inr (omega (arith, m.fat_region)))

  module _ {g2 : ℕ → Bytes} {i : ℕ} {e : Dirent} {t : Fs} {A : Type 0} {op : Exec Fs A} {a : A}
      (p : PutEntry n g2 s.layout i e op t a) (lt : i < s.layout.dir_entries) where
    -- An entry that is written is not in the data.
    pub put-data : (b : ℕ) → data_start s.layout ≤ b → p.sectors b ≡ g2 b
    put-data b le = p.elsewhere b (omega (arith, slot_region i lt))

  pub table-Mounted :
      (g' : ℕ → Bytes) (v : List ℕ) (l : Link)
      → Holds n g' l
      → length v ≡ length s.fat.v
      → Mounted n g' (record (put_table v s) { link = l })
  table-Mounted g' v l h size = record {
    running = record {
      holds = h;
      formatted = m.running.formatted;
      loaded = m.running.loaded;
      fits = m.running.fits;
    };
    table = size ∙ m.table;
    on_disk = m.on_disk;
    fat_region = m.fat_region;
    dir_region = m.dir_region;
    has_dir = m.has_dir;
    data_region = m.data_region;
  }
