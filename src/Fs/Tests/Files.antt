-- ===== src/Fs/Tests/Files.antt =====
-- The commands on the small disk with one empty file, as changes of a map from names to contents.
use cs4440proj3_final.Prelude.{
  ℕ, zero, suc, ◌/◌, ◌%◌, replicate, length-replicate, ◌<◌, ◌≡◌, ◌≢◌, refl, ap, sym, ◌∙◌, true,
  false, ◌==◌, Option, none, some, List, [], ◌∷◌, Bytes, arith, Bool-cases, inl, inr,
}
use mathlib.Core.Path.{subst}
use mathlib.Core.Bool.{false≢true}
use cs4440proj3_final.Disk.{Server, blk_ptr}
use cs4440proj3_final.Disk.Blocks.{block}
use cs4440proj3_final.Fs.Exec.{ok}
use cs4440proj3_final.Fs.Link.Laws.{at_rest, Holds}
use cs4440proj3_final.Fs.Files.Formatting.{cmd_format-Stands}
use cs4440proj3_final.Fs.State.{Fs}
use cs4440proj3_final.Fs.Dirent.{Dirent, dirent_unpack}
use cs4440proj3_final.Fs.Dirent.Names.{strncmp_eq-name_array}
use cs4440proj3_final.Fs.Fat.Tables.{free_from, free_count}
use cs4440proj3_final.Fs.File.{blocks_for}
use cs4440proj3_final.Fs.Directory.Entries.{entry_at}
use cs4440proj3_final.Fs.Directory.Search.{matches}
use cs4440proj3_final.Fs.Protocol.{status}
use cs4440proj3_final.Fs.Commands.{cmd_format, cmd_list, cmd_delete, cmd_read, cmd_write}
use cs4440proj3_final.Fs.File.Stored.{Covers}
use cs4440proj3_final.Fs.Files.{IsName, Held, InUse, Has, IsConsistent, Stands}
use cs4440proj3_final.Fs.File.Reading.{Quiet}
use cs4440proj3_final.Fs.Files.Listing.{in_use_from, lines_of, cmd_list-listing}
use cs4440proj3_final.Fs.Files.Sessions.{Request, format, create, delete, read, write}
use cs4440proj3_final.Fs.Files.Maps.{assign}
use cs4440proj3_final.Fs.Files.Naming.{matches-functional}
use cs4440proj3_final.Fs.Files.Lookup.{Agrees-assign, read_answer, cmd_read-Stands}
use cs4440proj3_final.Fs.Files.Deleting.{delete_answer, cmd_delete-Stands}
use cs4440proj3_final.Fs.Files.Making.{Makes, cmd_create-Makes}
use cs4440proj3_final.Fs.Files.Storing.{Room, write_answer, overwrite_in, cmd_write-Stands}
use cs4440proj3_final.Fs.Tests.Server.{
  blank_disk, blank_server, small_layout, blank_sectors, notes, contents, made, notes_sectors,
  notes_server, notes-Mounted,
}

abbrev at_slot : ℕ → Dirent
at_slot = entry_at small_layout notes_sectors

blank_slot : ((entry_at small_layout blank_sectors 1).used == 0) ≡ true
unfolding entry_at block dirent_unpack blk_ptr
blank_slot = refl

free_slot : ((at_slot 1).used == 0) ≡ true
free_slot = ap (λ (e : Dirent). e.used == 0) (made.slots 1 (omega arith) (omega arith)) ∙ blank_slot

free_matches : (name : Bytes) (e : Dirent) → (e.used == 0) ≡ true → matches name e ≡ false
free_matches name e h = ground arith

in_use : (i : ℕ) → InUse small_layout notes_sectors i → i ≡ 0
in_use zero u = refl
in_use (suc zero) u = absurd (false≢true (sym u.1 ∙ free_slot))
in_use (suc (suc i)) u = absurd (omega (arith, u.0))

Has-first : (name : Bytes) (i : ℕ) → Has small_layout notes_sectors name i → i ≡ 0
Has-first name zero h = refl
Has-first name (suc zero) h =
    absurd (false≢true (sym (free_matches name (at_slot 1) free_slot) ∙ h.1))
Has-first name (suc (suc i)) h = absurd (omega (arith, h.0))

notes_here : matches notes (at_slot 0) ≡ true
notes_here = ap (matches notes) made.here ∙ strncmp_eq-name_array notes (omega arith)

pub notes-IsName : IsName notes
notes-IsName = ((refl, (refl, (refl, (refl, (refl, tt))))), omega arith, omega arith)

empty_slot : Held 10 notes_sectors small_layout notes_server.fat.v 0 [] []
empty_slot = record {
  chain = ap (λ (e : Dirent). e.first) made.here;
  distinct = tt;
  behind = tt;
  in_disk = tt;
  stored = tt;
  len = ap (λ (e : Dirent). e.len) made.here;
  covers =
      subst (Covers 0) (sym (ap (λ (e : Dirent). e.len) made.here))
        (record { enough = omega arith; needed = omega arith });
}

abbrev notes-IsConsistent : IsConsistent 10 notes_sectors notes_server
notes-IsConsistent = record {
  mounted = notes-Mounted;
  blocks = λ i. [];
  bytes = λ i. [];
  held = λ i u.
      subst (λ j. Held 10 notes_sectors small_layout notes_server.fat.v j [] []) (sym (in_use i u))
        empty_slot;
  apart = λ i j u w ne. absurd (ne (in_use i u ∙ sym (in_use j w)));
  unique = λ name i j valid h k. Has-first name i h ∙ sym (Has-first name j k);
}

other_absent :
    (name : Bytes) (j : ℕ) → IsName name → name ≢ notes → j < 2 → matches name (at_slot j) ≡ false
other_absent name zero valid ne lt = elim (Bool-cases (matches name (at_slot 0))) [
  | inl at ↦ absurd (
      ne (
        matches-functional (at_slot 0) name notes valid.0 notes-IsName.0 valid.2 notes-IsName.2 at
          notes_here))
  | inr not_at ↦ not_at
]
other_absent name (suc zero) valid ne lt = free_matches name (at_slot 1) free_slot
other_absent name (suc (suc j)) valid ne lt = absurd (omega arith)

abbrev one_file : Bytes → Option Bytes
one_file = assign notes (some []) (λ name. none)

abbrev notes-Stands : Stands 10 one_file notes_server
notes-Stands = record {
  g = notes_sectors;
  consistent = notes-IsConsistent;
  agrees =
      Agrees-assign small_layout notes_sectors (λ i. []) notes (some []) (λ name. none)
        (0, (omega arith, notes_here), refl)
        (λ name valid ne j lt. other_absent name j valid ne lt);
}

-- "memo"
abbrev pub memo : Bytes
memo = b'm' ∷ b'e' ∷ b'm' ∷ b'o' ∷ []

pub memo-IsName : IsName memo
memo-IsName = ((refl, (refl, (refl, (refl, tt)))), omega arith, omega arith)

notes-Room : Room 10 one_file notes_server notes-Stands notes 2
unfolding blocks_for free_from free_count
notes-Room i h = omega arith

cmd_write-Stands_example :
    (s' : Fs) × (cmd_write notes contents notes_server ≡ (ok (write_answer (one_file notes)), s'))
    × Stands 10 (overwrite_in notes contents (one_file notes) one_file) s'
cmd_write-Stands_example =
    cmd_write-Stands notes-Stands notes contents notes-IsName (omega arith) notes-Room

cmd_delete-Stands_example :
    (s' : Fs) × (cmd_delete notes notes_server ≡ (ok (delete_answer (one_file notes)), s'))
    × Stands 10 (assign notes none one_file) s'
cmd_delete-Stands_example = cmd_delete-Stands notes-Stands notes notes-IsName

cmd_create-Makes_example : Makes 10 one_file memo notes_server
cmd_create-Makes_example = cmd_create-Makes notes-Stands memo memo-IsName

cmd_read-Stands_example :
    (s' : Fs) × (cmd_read notes notes_server ≡ (ok (read_answer (one_file notes)), s'))
    × Stands 10 one_file s'
cmd_read-Stands_example = cmd_read-Stands notes-Stands notes notes-IsName

-- A disk of 40 sectors, to be formatted.
abbrev pub bare_disk : Server
bare_disk = record blank_disk { cyl = 5; sec = 8; image = replicate 5120 0 }

abbrev pub bare_sectors : ℕ → Bytes
bare_sectors i = block bare_disk (i / 8) (i % 8)

pub bare-Holds : Holds 40 bare_sectors (at_rest bare_disk)
bare-Holds = record {
  disk = record {
    sound = record {
      fits = omega arith;
      mapped = length-replicate {A = ℕ} 5120 0;
      sectors = omega arith;
      cylinders = omega arith;
    };
    size = omega arith;
    small = omega arith;
    sectors = λ i lt. refl;
  };
  rest = refl;
}

abbrev pub bare_server : Fs
bare_server = record blank_server { link = at_rest bare_disk; formatted = false }

cmd_format-Stands_example :
    (s' : Fs) × (cmd_format bare_server ≡ (ok (status b'0'), s')) × Stands 40 (λ name. none) s'
cmd_format-Stands_example =
    cmd_format-Stands 40 bare_sectors bare_server bare-Holds (omega arith) (omega arith)

-- the server after the format
abbrev pub fresh :
    (s' : Fs) × (cmd_format bare_server ≡ (ok (status b'0'), s')) × Stands 40 (λ name. none) s'
fresh = cmd_format-Stands 40 bare_sectors bare_server bare-Holds (omega arith) (omega arith)

abbrev pub requests : List Request
requests =
    create notes ∷ write notes contents ∷ read notes ∷ delete notes ∷ create memo ∷ format ∷ []

cmd_list-listing_example :
    Quiet 10 notes_sectors
      (cmd_list true)
      notes_server
      (lines_of true (in_use_from small_layout notes_sectors 2 0))
cmd_list-listing_example = cmd_list-listing true notes-Mounted.running
