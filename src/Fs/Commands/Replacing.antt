-- ===== src/Fs/Commands/Replacing.antt =====
-- cmd_write of fs_server.c with enough space: the file has the new bytes, and cmd_read replies with
-- them.
use mathlib.Core.Path.{subst}
use cs4440proj3_final.Prelude.{
  ℕ, ◌+◌, ◌≤◌, ◌<◌, ◌≡◌, ap, sym, ◌∙◌, inr, not, ◌&&◌, some, List, [], ◌∷◌, Bytes, length,
  get_elem?, ◌==◌, arith, All,
}
use cs4440proj3_final.Fs.Exec.{ok, step}
use cs4440proj3_final.Fs.Words.{u32_mod}
use cs4440proj3_final.Fs.Link.{Link}
use cs4440proj3_final.Fs.Dirent.{Dirent, max_name, strncmp_eq}
use cs4440proj3_final.Fs.Dirent.Packing.{IsPackable}
use cs4440proj3_final.Fs.State.{Fs, put_table}
use cs4440proj3_final.Fs.Fat.{fat_flush}
use cs4440proj3_final.Fs.Fat.Tables.{free_from}
use cs4440proj3_final.Fs.Fat.Chains.{Chain, Avoids}
use cs4440proj3_final.Fs.Fat.Flushing.{Flushed, fat_flush-Flushed}
use cs4440proj3_final.Fs.File.{blocks_for, data_start}
use cs4440proj3_final.Fs.File.Stored.{Stored-same, Covers}
use cs4440proj3_final.Fs.File.Roundtrip.{Replaced, write_whole_file-Replaced}
use cs4440proj3_final.Fs.Directory.{slot_sector, dir_write_entry}
use cs4440proj3_final.Fs.Directory.Entries.{
  entry_at, entry_at-named, entry_at-same, slot_sector-lt, PutEntry, dir_write_entry-PutEntry,
}
use cs4440proj3_final.Fs.Directory.Search.{matches, IsFirst}
use cs4440proj3_final.Fs.Protocol.{status, file_reply}
use cs4440proj3_final.Fs.Commands.{code, write_found, write_done, read_reply, cmd_write, cmd_read}
use cs4440proj3_final.Fs.Commands.Creating.{Running}
use cs4440proj3_final.Fs.Commands.Reading.{File, cmd_read-File}
use cs4440proj3_final.Fs.Commands.Writing.{
  Mounted, Target, start_eq, searched, entry, ready, write_begins,
}

pub matches-same :
    (name : Bytes) (e e' : Dirent)
    → e'.name ≡ e.name
    → e'.used ≡ e.used
    → matches name e' ≡ matches name e
matches-same name e e' same_name same_used =
    ap (λ u. not (u == 0) && strncmp_eq max_name e'.name name) same_used
    ∙ ap (λ a. not (e.used == 0) && strncmp_eq max_name a name) same_name

first-fits :
    (v : List ℕ) (n head : ℕ) (bs : List ℕ)
    → n < u32_mod
    → Chain v head bs
    → All (λ b. b < n) bs
    → head < u32_mod
first-fits v n head [] small c lt = omega (arith, c)
first-fits v n head (b ∷ bs) small c lt = omega (arith, c.0, lt.0)

-- A sector before the data is not among blocks of the data area.
Avoids-data : (start d : ℕ) (bs : List ℕ) → d < start → All (λ b. start ≤ b) bs → Avoids d bs
Avoids-data start d [] lt le = tt
Avoids-data start d (b ∷ bs) lt le = (omega arith, Avoids-data start d bs lt le.1)

pub kept :
    (start : ℕ) (g g' : ℕ → Bytes) (bs : List ℕ)
    → ((b : ℕ) → start ≤ b → g' b ≡ g b)
    → All (λ b. start ≤ b) bs
    → All (λ b. g' b ≡ g b) bs
kept start g g' [] same le = tt
kept start g g' (b ∷ bs) same le = (same b le.0, kept start g g' bs same le.1)

-- What cmd_write leaves: a running server with the file.
pub record Written (n : ℕ) (s : Fs) (name bytes : Bytes) : Type 0 where
  pub table : List ℕ
  pub link : Link
  pub sectors : ℕ → Bytes
  pub eq : cmd_write name bytes s ≡ (ok (code b'0'), record (put_table table s) { link = link })
  pub running : Running n sectors (record (put_table table s) { link = link })
  pub file : File n sectors (record (put_table table s) { link = link }) name bytes

module _ {n : ℕ} {g : ℕ → Bytes} {s : Fs} (m : Mounted n g s) (name bytes : Bytes)
    (t : Target g s name) (small : length bytes + 127 < u32_mod)
    (room : blocks_for (length bytes)
      ≤ free_from (data_start s.layout) s.fat.v + length t.old) where
  -- the contents are written
  abbrev pub w : Replaced n g (entry m name bytes t) t.old bytes (searched m name bytes t)
  w =
      write_whole_file-Replaced n g (entry m name bytes t) t.old bytes (searched m name bytes t)
        (ready m name bytes t) small room

  abbrev replaced : Fs
  replaced = record (put_table w.table s) { link = w.link }

  -- the FAT is written
  abbrev pub f : Flushed n w.sectors s.layout w.table 0 s.layout.fat_sectors fat_flush replaced
  f =
      fat_flush-Flushed n w.sectors replaced w.holds m.running.loaded
        (omega (arith, m.fat_region, m.data_region, m.on_disk))

  pub slot-lt : t.slot < s.layout.dir_entries
  slot-lt = omega (arith, t.first.1)

  named :
      (length (entry m name bytes t).name ≡ 32)
      × (get_elem? (entry m name bytes t).name 31 ≡ some 0)
  named = entry_at-named s.layout t.slot m.running.holds m.running.fits slot-lt

  pub packable : IsPackable w.entry
  packable = record {
    array = ap (λ (a : Bytes). length a) w.name ∙ named.0;
    terminated = ap (λ (a : Bytes). get_elem? a 31) w.name ∙ named.1;
    len_fits = omega (arith, w.len);
    first_fits =
        first-fits w.table n w.entry.first w.blocks m.running.holds.disk.small w.chain w.in_disk;
  }

  -- the entry is written
  abbrev pub p :
      PutEntry n f.sectors s.layout t.slot w.entry
        (dir_write_entry s.layout t.slot w.entry)
        (record replaced { link = f.end })
        tt
  p =
      dir_write_entry-PutEntry n f.sectors s.layout t.slot w.entry m.running.holds.disk.small
        m.running.fits slot-lt (record replaced { link = f.end }) f.holds packable

  -- The directory is as before but for the slot.
  pub dir-same :
      (j : ℕ) → j < s.layout.dir_entries → entry_at s.layout f.sectors j ≡ entry_at s.layout g j
  dir-same j lt =
      let d : ℕ = slot_sector s.layout j in
      let (at, in_disk) =
        slot_sector-lt n s.layout j m.running.fits m.running.holds.disk.small lt in
      let before : d < data_start s.layout = omega (arith, start_eq m name bytes t, m.dir_region) in
      entry_at-same s.layout g f.sectors j (
        f.elsewhere d (inr (omega (arith, m.fat_region)))
        ∙ w.elsewhere d (Avoids-data (data_start s.layout) d w.blocks before w.behind))

  pub data-same : (b : ℕ) → data_start s.layout ≤ b → p.sectors b ≡ w.sectors b
  data-same b le =
      let (at, in_disk) =
        slot_sector-lt n s.layout t.slot m.running.fits m.running.holds.disk.small slot-lt in
      p.elsewhere b (omega (arith, start_eq m name bytes t, m.dir_region, slot-lt))
      ∙ f.elsewhere b (inr (omega (arith, start_eq m name bytes t, m.fat_region)))

  IsFirst-same :
      IsFirst
        (λ j. matches name (entry_at s.layout p.sectors j))
        0
        s.layout.dir_entries
        (some t.slot)
  IsFirst-same =
      let (le, lt, at, before) = t.first in
      (
        le,
        lt,
        ap (matches name) p.here
            ∙ matches-same name (entry m name bytes t) w.entry w.name w.used
            ∙ at,
        λ j a b.
            ap (matches name) (p.slots j (omega arith) (omega arith) ∙ dir-same j (omega arith))
            ∙ before j a b,
      )

  pub write_runs :
      cmd_write name bytes s ≡ (ok (code b'0'), record (put_table w.table s) { link = p.end })
  unfolding write_found write_done
  write_runs = write_begins m name bytes t (step _ w.eq ∙ step _ f.eq ∙ step _ p.eq)

  -- On a mounted server, for a name whose first entry in use has a chain in the data area, and with
  -- fewer than 2 ^ 32 - 127 bytes of new contents and space for them, the freed blocks of the old ones
  -- counted in, cmd_write replies with 0, the server runs on, and the file of the name has these bytes.
  cmd_write-Written : Written n s name bytes
  cmd_write-Written =
      let len = ap (λ (e : Dirent). e.len) p.here ∙ w.len in
      record {
        table = w.table;
        link = p.end;
        sectors = p.sectors;
        eq = write_runs;
        running = record {
          holds = p.holds;
          formatted = m.running.formatted;
          loaded = m.running.loaded;
          fits = m.running.fits;
        };
        file = record {
          slot = t.slot;
          first = IsFirst-same;
          blocks = w.blocks;
          chain =
              subst (λ k. Chain w.table k w.blocks) (sym (ap (λ (e : Dirent). e.first) p.here))
                w.chain;
          in_disk = w.in_disk;
          stored =
              Stored-same w.sectors p.sectors w.blocks bytes 0
                (kept (data_start s.layout) w.sectors p.sectors w.blocks data-same w.behind)
                w.stored;
          len = len;
          covers =
              subst (Covers (length w.blocks)) (sym (ap (λ (e : Dirent). e.len) p.here)) w.covers;
        };
      }

  -- On a mounted server, for a name whose first entry in use has a chain in the data area, and with
  -- fewer than 2 ^ 32 - 127 bytes of new contents and space for them, the freed blocks of the old ones
  -- counted in, cmd_write replies with 0, and cmd_read of the name then replies with exactly the bytes that were written.
  pub cmd_read-cmd_write :
      (s' : Fs) × (cmd_write name bytes s ≡ (ok (status b'0'), s'))
      × ((cmd_read name s').0 ≡ ok (file_reply bytes))
  unfolding read_reply
  cmd_read-cmd_write =
      let c = cmd_write-Written in
      (
        record (put_table c.table s) { link = c.link },
        c.eq,
        ap (λ p. p.0) (cmd_read-File name bytes c.running c.file).eq,
      )
