-- ===== src/Fs/Tests/Server.antt =====
-- A disk of ten sectors, all of them zero, and a server that has adopted it.
use cs4440proj3_final.Prelude.{
  ℕ, ◌/◌, ◌%◌, refl, ap, ◌∙◌, true, List, [], ◌∷◌, ◌++◌, Bytes, replicate, arith, length-replicate,
}
use cs4440proj3_final.Prelude.Int.{pos}
use cs4440proj3_final.Disk.{Server}
use cs4440proj3_final.Disk.Bounds.{IsSound}
use cs4440proj3_final.Disk.Blocks.{block}
use cs4440proj3_final.Fs.Link.Laws.{at_rest, Holds}
use cs4440proj3_final.Fs.Layout.{Layout}
use cs4440proj3_final.Fs.Fat.{fat_reserved}
use cs4440proj3_final.Fs.State.{Fs}
use cs4440proj3_final.Fs.Dirent.{Dirent}
use cs4440proj3_final.Fs.Dirent.Names.{strncmp_eq-name_array}
use cs4440proj3_final.Fs.Directory.{dir_write_entry}
use cs4440proj3_final.Fs.Directory.Entries.{PutEntry, dir_write_entry-PutEntry}
use cs4440proj3_final.Fs.Directory.Search.{matches}
use cs4440proj3_final.Fs.Commands.{new_entry}
use cs4440proj3_final.Fs.Commands.Creating.{Running, new_entry-IsPackable}
use cs4440proj3_final.Fs.Commands.Writing.{Mounted, Target}

abbrev pub blank_disk : Server
blank_disk = record {
  cyl = 2;
  sec = 5;
  track_us = pos 100;
  image = replicate 1280 0;
  head_cyl = pos 0;
  naps = [];
}

pub blank_disk-IsSound : IsSound blank_disk
blank_disk-IsSound = record {
  fits = omega arith;
  mapped = length-replicate {A = ℕ} 1280 0;
  sectors = omega arith;
  cylinders = omega arith;
}

abbrev pub blank_sectors : ℕ → Bytes
blank_sectors i = block blank_disk (i / 5) (i % 5)

pub blank-Holds : Holds 10 blank_sectors (at_rest blank_disk)
blank-Holds = record {
  disk = record {
    sound = blank_disk-IsSound;
    size = omega arith;
    small = omega arith;
    sectors = λ i lt. refl;
  };
  rest = refl;
}

-- One sector of the table, one of the directory, seven of data.
abbrev pub small_layout : Layout
small_layout = record {
  total_blocks = 10;
  fat_start = 1;
  fat_sectors = 1;
  dir_start = 2;
  dir_sectors = 1;
  dir_entries = 2;
}

abbrev pub fresh_table : List ℕ
fresh_table = replicate 3 fat_reserved ++ replicate 7 0

abbrev pub blank_server : Fs
blank_server = record {
  link = at_rest blank_disk;
  layout = small_layout;
  fat = record { v = fresh_table; loaded = true };
  formatted = true;
}

pub blank-Running : Running 10 blank_sectors blank_server
blank-Running = record { holds = blank-Holds; formatted = refl; loaded = refl; fits = omega arith }

-- "notes"
abbrev pub notes : Bytes
notes = b'n' ∷ b'o' ∷ b't' ∷ b'e' ∷ b's' ∷ []

abbrev pub contents : Bytes
contents = b'h' ∷ b'i' ∷ []

-- The same server after an empty file of this name was put into slot 0.
abbrev pub made :
    PutEntry 10 blank_sectors small_layout 0
      (new_entry notes)
      (dir_write_entry small_layout 0 (new_entry notes))
      blank_server
      tt
made =
    dir_write_entry-PutEntry 10 blank_sectors small_layout 0 (new_entry notes) (omega arith)
      (omega arith) (omega arith) blank_server blank-Holds (new_entry-IsPackable notes)

abbrev pub notes_sectors : ℕ → Bytes
notes_sectors = made.sectors

abbrev pub notes_server : Fs
notes_server = record blank_server { link = made.end }

pub notes-Mounted : Mounted 10 notes_sectors notes_server
notes-Mounted = record {
  running = record { holds = made.holds; formatted = refl; loaded = refl; fits = omega arith };
  table = refl;
  on_disk = omega arith;
  fat_region = omega arith;
  dir_region = omega arith;
  has_dir = omega arith;
  data_region = omega arith;
}

abbrev pub notes-Target : Target notes_sectors notes_server notes
notes-Target = record {
  slot = 0;
  first = (
    omega arith,
    omega arith,
    ap (matches notes) made.here ∙ strncmp_eq-name_array notes (omega arith),
    λ j le lt. absurd (omega arith),
  );
  old = [];
  chain = ap (λ (e : Dirent). e.first) made.here;
  distinct = tt;
  behind = tt;
}
