-- ===== src/Fs/Commands/Reading.antt =====
-- cmd_read of fs_server.c on a formatted disk, alone and after cmd_create.
use cs4440proj3_final.Prelude.{
  ℕ, ◌<◌, ◌≡◌, ◌≢◌, ap, sym, ◌∙◌, true, false, Option, none, some, List, [], Bytes, length, get_or,
  arith, All,
}
use cs4440proj3_final.Fs.Exec.{Res, ok, io, fault, waits, ◌>>=◌, ◌>>◌, step}
use cs4440proj3_final.Fs.Dirent.{Dirent, max_name}
use cs4440proj3_final.Fs.Dirent.Names.{strncmp_eq-name_array}
use cs4440proj3_final.Fs.State.{Fs}
use cs4440proj3_final.Fs.Fat.{fat_load}
use cs4440proj3_final.Fs.Fat.Chains.{Chain}
use cs4440proj3_final.Fs.File.Stored.{Stored, Covers}
use cs4440proj3_final.Fs.File.Reading.{Quiet, read_whole_file-Stored}
use cs4440proj3_final.Fs.Directory.Entries.{entry_at, PutEntry}
use cs4440proj3_final.Fs.Directory.Search.{
  matches, IsFirst, IsFirst-unique, slot_of, dir_find_by_name-IsFirst,
}
use cs4440proj3_final.Fs.Commands.{
  code, no_data, found, new_entry, read_found, read_reply, cmd_read, cmd_create,
}
use cs4440proj3_final.Fs.Commands.Creating.{
  Running, loaded_lem, found_lem, handled, exists, full, made, cmd_create-Created,
}

-- The directory search where its result is known.
pub find_known :
    {n : ℕ} {g : ℕ → Bytes} {s : Fs} (name : Bytes) (o : Option ℕ)
    → Running n g s
    → IsFirst (λ j. matches name (entry_at s.layout g j)) 0 s.layout.dir_entries o
    → Quiet n g (found name) s (slot_of s.layout g o)
find_known {g} {s} name o r first =
    let (o', q, first') = dir_find_by_name-IsFirst s.layout r.fits name s r.holds in
    let same =
      IsFirst-unique (λ j. matches name (entry_at s.layout g j)) 0 s.layout.dir_entries o' o first'
        first in
    record {
      end = q.end;
      eq = found_lem name q ∙ ap (λ o. (ok (slot_of s.layout g o), record s { link = q.end })) same;
      holds = q.holds;
    }

-- A file that the directory has under its first entry of the name, with its bytes.
pub record File (n : ℕ) (g : ℕ → Bytes) (s : Fs) (name : Bytes) (bytes : Bytes) : Type 0 where
  pub slot : ℕ
  pub first : IsFirst (λ j. matches name (entry_at s.layout g j)) 0 s.layout.dir_entries (some slot)
  pub blocks : List ℕ
  pub chain : Chain s.fat.v (entry_at s.layout g slot).first blocks
  pub in_disk : All (λ b. b < n) blocks
  pub stored : Stored g blocks bytes 0
  pub len : (entry_at s.layout g slot).len ≡ length bytes
  pub covers : Covers (length blocks) (entry_at s.layout g slot).len

-- On a running server, cmd_read of a name whose first entry in use has a chain that stores some bytes
-- replies with their number and with them, and changes no sector.
pub cmd_read-File :
    {n : ℕ} {g : ℕ → Bytes} {s : Fs} (name bytes : Bytes)
    → Running n g s
    → File n g s name bytes
    → Quiet n g (cmd_read name) s (read_reply (length bytes) bytes)
unfolding cmd_read read_found
cmd_read-File {n} {g} {s} name bytes r f =
    let e = entry_at s.layout g f.slot in
    let q = find_known name (some f.slot) r f.first in
    let s' : Fs = record s { link = q.end } in
    let w =
      read_whole_file-Stored n g e f.blocks bytes s' q.holds f.chain f.in_disk f.stored f.len
        f.covers in
    record {
      end = w.end;
      eq =
          handled (no_data b'1') (no_data b'2') (fat_load >> (found name >>= read_found)) s
            r.formatted
            (step _ (loaded_lem s r.loaded)
              ∙ step _ q.eq
              ∙ step _ w.eq
              ∙ ap (λ k. (ok (read_reply k bytes), record s { link = w.end })) f.len);
      holds = w.holds;
    }

-- cmd_read of a name that no entry in use has replies that there is no such file.
pub cmd_read-absent :
    {n : ℕ} {g : ℕ → Bytes} {s : Fs} (name : Bytes)
    → Running n g s
    → ((j : ℕ) → j < s.layout.dir_entries → matches name (entry_at s.layout g j) ≡ false)
    → Quiet n g (cmd_read name) s (no_data b'1')
unfolding cmd_read read_found
cmd_read-absent {n} {g} {s} name r absent =
    let q = find_known name none r (λ j le lt. absent j (omega arith)) in
    record {
      end = q.end;
      eq =
          handled (no_data b'1') (no_data b'2') (fat_load >> (found name >>= read_found)) s
            r.formatted (step _ (loaded_lem s r.loaded) ∙ step _ q.eq);
      holds = q.holds;
    }

pub new_entry-matches :
    (name : Bytes) → length name < max_name → matches name (new_entry name) ≡ true
new_entry-matches name h = strncmp_eq-name_array name h

-- A slot that was made for a name is the first one that has it.
made-IsFirst :
    {n : ℕ} {g : ℕ → Bytes} {s : Fs} (name : Bytes) (i : ℕ) {b : Bytes}
    → length name < max_name
    → i < s.layout.dir_entries
    → ((j : ℕ) → j < s.layout.dir_entries → matches name (entry_at s.layout g j) ≡ false)
    → (w : PutEntry n g s.layout i (new_entry name) (cmd_create name) s b)
    → IsFirst (λ j. matches name (entry_at s.layout w.sectors j)) 0 s.layout.dir_entries (some i)
made-IsFirst {g} {s} name i short lt absent w = (
  omega arith,
  omega arith,
  ap (matches name) w.here ∙ new_entry-matches name short,
  λ j le before. ap (matches name) (w.slots j (omega arith) (omega arith)) ∙ absent j (omega arith),
)

abbrev first_byte : Res Bytes → ℕ
first_byte (ok b) = get_or b 0 0
first_byte io = 0
first_byte fault = 0
first_byte waits = 0

differ : (c : ℕ) → c ≢ b'0' → ok (code c) ≢ ok (code b'0')
differ c ne e = ne (ap first_byte e)

-- On a running server, if cmd_create of a name of 1 to 31 bytes replies with 0, then cmd_read of the
-- name replies with length 0 and no bytes.
cmd_read-cmd_create :
    {n : ℕ} {g : ℕ → Bytes} {s : Fs} (name : Bytes) (s' : Fs)
    → Running n g s
    → 0 < length name
    → length name < max_name
    → cmd_create name s ≡ (ok (code b'0'), s')
    → (cmd_read name s').0 ≡ ok (read_reply 0 [])
cmd_read-cmd_create {n} {g} {s} name s' r pos short h = elim (cmd_create-Created r name pos short) [
  | exists i lt at q ↦ absurd (differ b'1' (omega arith) (ap (λ p. p.0) (sym q.eq ∙ h)))
  | full taken absent q ↦ absurd (differ b'2' (omega arith) (ap (λ p. p.0) (sym q.eq ∙ h)))
  | made i lt free absent w ↦
      let s1 : Fs = record s { link = w.end } in
      let run : Running n w.sectors s1 = record {
        holds = w.holds;
        formatted = r.formatted;
        loaded = r.loaded;
        fits = r.fits;
      } in
      let file : File n w.sectors s1 name [] = record {
        slot = i;
        first = made-IsFirst name i short lt absent w;
        blocks = [];
        chain = ap (λ (e : Dirent). e.first) w.here;
        in_disk = tt;
        stored = tt;
        len = ap (λ (e : Dirent). e.len) w.here;
        covers = record {
          enough = omega (arith, ap (λ (e : Dirent). e.len) w.here);
          needed = omega arith;
        };
      } in
      let same : s1 ≡ s' = ap (λ p. p.1) (sym w.eq ∙ h) in
      ap (λ t. (cmd_read name t).0) (sym same) ∙ ap (λ p. p.0) (cmd_read-File name [] run file).eq
]
