-- ===== src/Fs/Commands/Creating.antt =====
-- cmd_create of fs_server.c on a formatted disk, and cmd_read after it.
use cs4440proj3_final.Prelude.{
  ℕ, ◌<◌, ◌≡◌, refl, ap, ◌∙◌, inl, inr, true, false, Option, none, some, Bytes, length, leb, ◌==◌,
  if◌then◌else◌, arith, Option-cases,
}
use cs4440proj3_final.Fs.Exec.{ok, Exec, ◌>>=◌, ◌>>◌, step}
use cs4440proj3_final.Fs.Link.Laws.{Holds}
use cs4440proj3_final.Fs.Dirent.{Dirent, max_name}
use cs4440proj3_final.Fs.Dirent.Names.{length-name_array, name_array-terminated}
use cs4440proj3_final.Fs.Dirent.Packing.{IsPackable}
use cs4440proj3_final.Fs.State.{Fs}
use cs4440proj3_final.Fs.Fat.{fat_load}
use cs4440proj3_final.Fs.File.Reading.{Quiet}
use cs4440proj3_final.Fs.Directory.{dir_find_by_name}
use cs4440proj3_final.Fs.Directory.Entries.{entry_at, Fits, PutEntry, dir_write_entry-PutEntry}
use cs4440proj3_final.Fs.Directory.Search.{
  matches, IsFirst, slot_of, dir_find_by_name-IsFirst, dir_find_free-IsFirst,
}
use cs4440proj3_final.Fs.Commands.{
  code, formatted_or, or_reply, reply_of, found, new_entry, create_in, create_new, cmd_create,
}

-- A server that has adopted a formatted disk and loaded its FAT, on a connection that works.
pub record Running (n : ℕ) (g : ℕ → Bytes) (s : Fs) : Type 0 where
  pub holds : Holds n g s.link
  pub formatted : s.formatted ≡ true
  pub loaded : s.fat.loaded ≡ true
  pub fits : Fits n s.layout

-- A handler on a formatted disk on which no operation fails.
pub handled :
    (bare otherwise : Bytes) (m : Exec Fs Bytes) (s : Fs) {b : Bytes} {s' : Fs}
    → s.formatted ≡ true
    → m s ≡ (ok b, s')
    → formatted_or bare (or_reply otherwise m) s ≡ (ok b, s')
handled bare otherwise m s f h =
    ap (λ t. if t then or_reply otherwise m s else (ok bare, s)) f
    ∙ ap (λ p. (reply_of otherwise p.0, p.1)) h

pub new_entry-IsPackable : (name : Bytes) → IsPackable (new_entry name)
new_entry-IsPackable name = record {
  array = length-name_array name;
  terminated = name_array-terminated name;
  len_fits = omega arith;
  first_fits = omega arith;
}

pub loaded_lem : (s : Fs) → s.fat.loaded ≡ true → fat_load s ≡ (ok tt, s)
unfolding fat_load
loaded_lem s h = rw (fat_load, h) refl

pub found_lem :
    {n : ℕ} {g : ℕ → Bytes} {s : Fs} (name : Bytes) {o : Option (ℕ × Dirent)}
    (q : Quiet n g (dir_find_by_name s.layout name) s o)
    → found name s ≡ (ok o, record s { link = q.end })
unfolding found
found_lem name q = rw (found, q.eq) refl

-- The three ways of cmd_create: the name is taken, no slot is free, or a slot got an empty file.
pub data Created (n : ℕ) (g : ℕ → Bytes) (s : Fs) (name : Bytes) : Type 0 where
  exists :
      (i : ℕ)
      → i < s.layout.dir_entries
      → matches name (entry_at s.layout g i) ≡ true
      → Quiet n g (cmd_create name) s (code b'1')
      → Created n g s name
  full :
      ((i : ℕ) → i < s.layout.dir_entries → ((entry_at s.layout g i).used == 0) ≡ false)
      → ((j : ℕ) → j < s.layout.dir_entries → matches name (entry_at s.layout g j) ≡ false)
      → Quiet n g (cmd_create name) s (code b'2')
      → Created n g s name
  made :
      (i : ℕ)
      → i < s.layout.dir_entries
      → ((entry_at s.layout g i).used == 0) ≡ true
      → ((j : ℕ) → j < s.layout.dir_entries → matches name (entry_at s.layout g j) ≡ false)
      → PutEntry n g s.layout i (new_entry name) (cmd_create name) s (code b'0')
      → Created n g s name

module _ {n : ℕ} {g : ℕ → Bytes} {s : Fs} (r : Running n g s) (name : Bytes)
    (some_name : 0 < length name) (short : length name < max_name) where
  -- the handler up to the search
  create_begins :
      {o : Option (ℕ × Dirent)} {b : Bytes} {s' : Fs}
      (q : Quiet n g (dir_find_by_name s.layout name) s o)
      → create_new name o (record s { link = q.end }) ≡ (ok b, s')
      → cmd_create name s ≡ (ok b, s')
  unfolding cmd_create
  create_begins {b} {s'} q h =
      let not_empty : (length name == 0) ≡ false = ground arith in
      let not_long : leb max_name (length name) ≡ false = ground arith in
      let m = fat_load >> (found name >>= create_new name) in
      rw (not_empty, not_long)
        (handled (code b'2') (code b'2') m s r.formatted
          (step _ (loaded_lem s r.loaded) ∙ step _ (found_lem name q) ∙ h))

  pub cmd_create-Created : Created n g s name
  unfolding create_new create_in
  cmd_create-Created =
      let l = s.layout in
      let (o, q, first) = dir_find_by_name-IsFirst l r.fits name s r.holds in
      elim (Option-cases o) [
        | inr (i, e) ↦
            let (le, lt, at, before) : IsFirst (λ j. matches name (entry_at l g j)) 0 l.dir_entries
                (some i) =
              rw e at first in
            exists i (omega arith) at (record {
              end = q.end;
              eq =
                  create_begins q
                    (ap (λ o. create_new name (slot_of l g o) (record s { link = q.end })) e);
              holds = q.holds;
            })
        | inl e ↦
            let absent : IsFirst (λ j. matches name (entry_at l g j)) 0 l.dir_entries none =
              rw e at first in
            let (o', q', first') =
              dir_find_free-IsFirst l r.fits (record s { link = q.end }) q.holds in
            let go : (b : Bytes) (s' : Fs)
                → create_in name o' (record s { link = q'.end }) ≡ (ok b, s')
                → cmd_create name s ≡ (ok b, s') =
              λ b s' h. create_begins q (
                ap (λ o. create_new name (slot_of l g o) (record s { link = q.end })) e
                ∙ step _ q'.eq
                ∙ h) in
            elim (Option-cases o') [
              | inl e' ↦
                  let taken : IsFirst (λ j. (entry_at l g j).used == 0) 0 l.dir_entries none =
                    rw e' at first' in
                  full (λ i lt. taken i (omega arith) (omega arith))
                    (λ j lt. absent j (omega arith) (omega arith))
                    (record {
                      end = q'.end;
                      eq = go _ _ (ap (λ o. create_in name o (record s { link = q'.end })) e');
                      holds = q'.holds;
                    })
              | inr (i, e') ↦
                  let (le, lt, at, before) : IsFirst (λ j. (entry_at l g j).used == 0) 0
                      l.dir_entries (some i) =
                    rw e' at first' in
                  let w =
                    dir_write_entry-PutEntry n g l i (new_entry name) r.holds.disk.small r.fits
                      (omega arith) (record s { link = q'.end }) q'.holds
                      (new_entry-IsPackable name) in
                  made i (omega arith) at (λ j lt. absent j (omega arith) (omega arith))
                    (record {
                      end = w.end;
                      sectors = w.sectors;
                      eq = go _ _ (
                          ap (λ o. create_in name o (record s { link = q'.end })) e' ∙ step _ w.eq);
                      holds = w.holds;
                      here = w.here;
                      slots = w.slots;
                      elsewhere = w.elsewhere;
                    })
            ]
      ]
