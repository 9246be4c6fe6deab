-- ===== src/Fs/Directory/Entries.antt =====
-- The directory of fs_server.c as an array of entries.
use native.Mathlib.Decide.{ℕ_discrete}
use cs4440proj3_final.Prelude.{
  ℕ, ◌+◌, ◌*◌, ◌/◌, ◌%◌, ◌^◌, ◌≤◌, ◌<◌, ◌≡◌, ◌≢◌, refl, ap, sym, ◌∙◌, ◌⊎◌, inl, inr, Bytes, length,
  drop, slice, splice, arith, drop-overwrite, slice-splice_before, get_or-splice_before,
  length-splice, length-take, length-drop, length-set, get_elem?, get_elem?-set_self, some,
}
use cs4440proj3_final.Fs.Exec.{ok, Exec, step}
use cs4440proj3_final.Fs.Link.{Link}
use cs4440proj3_final.Fs.Link.Laws.{Holds, update, update_self, update_ne}
use cs4440proj3_final.Fs.Link.Reading.{length-Holds, disk_read_idx_lem}
use cs4440proj3_final.Fs.Link.Writing.{disk_write_idx_lem}
use cs4440proj3_final.Fs.Layout.{Layout}
use cs4440proj3_final.Fs.Dirent.{Dirent, dirent_pack, dirent_unpack}
use cs4440proj3_final.Fs.Dirent.Packing.{IsPackable, length-dirent_pack, dirent_unpack-dirent_pack}
use cs4440proj3_final.Fs.State.{Fs, on_link_lem}
use cs4440proj3_final.Fs.File.Reading.{Quiet}
use cs4440proj3_final.Fs.Directory.{slot_sector, slot_offset, dir_read_entry, dir_write_entry}

-- The entry in slot `i` of the directory in the sectors `g`.
unfoldable pub entry_at : Layout → (ℕ → Bytes) → ℕ → Dirent
entry_at l g i = dirent_unpack (drop (slot_offset i) (g (slot_sector l i)))

-- The sectors of the directory are on the disk of `n` sectors.
abbrev pub Fits : ℕ → Layout → Type 0
Fits n l = 2 * l.dir_start + l.dir_entries ≤ 2 * n

pub slot_sector-lt :
    (n : ℕ) (l : Layout) (i : ℕ)
    → Fits n l
    → n < 2 ^ 32
    → i < l.dir_entries
    → (slot_sector l i ≡ l.dir_start + i / 2) × (slot_sector l i < n)
slot_sector-lt n l i fits small lt = (omega arith, omega arith)

-- dir_read_entry gives the entry.
pub dir_read_entry_lem :
    {n : ℕ} {g : ℕ → Bytes} {s : Fs} (l : Layout) (i : ℕ)
    → Holds n g s.link
    → Fits n l
    → i < l.dir_entries
    → Quiet n g (dir_read_entry l i) s (entry_at l g i)
unfolding dir_read_entry entry_at
dir_read_entry_lem {n} {s} l i h fits lt =
    let in_disk : slot_sector l i < n = (slot_sector-lt n l i fits h.disk.small lt).1 in
    let r = disk_read_idx_lem (slot_sector l i) h in_disk in
    record { end = r.end; eq = step _ (on_link_lem s r); holds = r.post }

pub entry_at-same :
    (l : Layout) (g g' : ℕ → Bytes) (i : ℕ)
    → g' (slot_sector l i) ≡ g (slot_sector l i)
    → entry_at l g' i ≡ entry_at l g i
unfolding entry_at
entry_at-same l g g' i same = ap (λ b. dirent_unpack (drop (slot_offset i) b)) same

-- The name of an entry is an array of 32 bytes with a NUL at its end.
pub entry_at-named :
    {n : ℕ} {g : ℕ → Bytes} {k : Link} (l : Layout) (i : ℕ)
    → Holds n g k
    → Fits n l
    → i < l.dir_entries
    → (length (entry_at l g i).name ≡ 32) × (get_elem? (entry_at l g i).name 31 ≡ some 0)
unfolding entry_at dirent_unpack
entry_at-named {n} {g} l i h fits lt =
    let sector : Bytes = g (slot_sector l i) in
    let size = length-Holds (slot_sector l i) h (slot_sector-lt n l i fits h.disk.small lt).1 in
    let name : Bytes = slice 0 32 (drop (slot_offset i) sector) in
    let len : length name ≡ 32 = omega (
      arith,
      size,
      length-take 32 (drop (slot_offset i) sector),
      length-drop (slot_offset i) sector,
    ) in
    (length-set name 31 0 ∙ len, get_elem?-set_self name 31 0 (omega arith))

halves :
    (i j : ℕ)
    → slot_offset i ≢ slot_offset j
    → ((slot_offset i ≡ 0) × (slot_offset j ≡ 64)) ⊎ ((slot_offset i ≡ 64) × (slot_offset j ≡ 0))
halves i j ne = elim (ℕ_discrete (i % 2) 0) [
  | yes e ↦ inl (omega arith, omega arith)
  | no o ↦ inr (omega arith, omega arith)
]

low_half :
    (e : Dirent) (blk : Bytes) → dirent_unpack (splice 64 (dirent_pack e) blk) ≡ dirent_unpack blk
unfolding dirent_unpack
low_half e blk =
    let p = dirent_pack e in
    rw
      (
        slice-splice_before 64 p blk 0 32 (omega arith),
        slice-splice_before 64 p blk 32 4 (omega arith),
        slice-splice_before 64 p blk 36 4 (omega arith),
        get_or-splice_before 64 p blk 40 0 (omega arith),
      )
      refl

-- The other entry of a sector is not touched.
other_half :
    (i j : ℕ) (e : Dirent) (blk : Bytes)
    → slot_offset i ≢ slot_offset j
    → dirent_unpack (drop (slot_offset j) (splice (slot_offset i) (dirent_pack e) blk))
      ≡ dirent_unpack (drop (slot_offset j) blk)
other_half i j e blk ne = elim (halves i j ne) [
  | inl (a, b) ↦
      rw (a, b)
        (ap dirent_unpack
          (drop-overwrite 64 (dirent_pack e) blk (omega (arith, length-dirent_pack e))))
  | inr (a, b) ↦ rw (a, b) (low_half e blk)
]

-- What dir_write_entry leaves: the slot has the entry, every other slot the one it had, and no
-- sector besides the slot's is changed.
pub record PutEntry {A : Type 0} (n : ℕ) (g : ℕ → Bytes) (l : Layout) (i : ℕ) (e : Dirent)
    (m : Exec Fs A) (s : Fs) (a : A) : Type 0 where
  pub end : Link
  pub sectors : ℕ → Bytes
  pub eq : m s ≡ (ok a, record s { link = end })
  pub holds : Holds n sectors end
  pub here : entry_at l sectors i ≡ e
  pub slots : (j : ℕ) → j < l.dir_entries → j ≢ i → entry_at l sectors j ≡ entry_at l g j
  pub elsewhere : (k : ℕ) → k ≢ slot_sector l i → sectors k ≡ g k

module _ (n : ℕ) (g : ℕ → Bytes) (l : Layout) (i : ℕ) (e : Dirent) (small : n < 2 ^ 32)
    (fits : Fits n l) (lt : i < l.dir_entries) where
  abbrev sector : ℕ
  sector = slot_sector l i

  abbrev packed : Bytes
  packed = splice (slot_offset i) (dirent_pack e) (g sector)

  -- the entries of an array in which the sector of slot `i` was rewritten
  slots_after :
      (j : ℕ) → j < l.dir_entries → j ≢ i → entry_at l (update g sector packed) j ≡ entry_at l g j
  unfolding entry_at
  slots_after j ltj ne = elim (ℕ_discrete (slot_sector l j) sector) [
    | no away ↦
        ap (λ b. dirent_unpack (drop (slot_offset j) b))
          (update_ne g sector packed (slot_sector l j) away)
    | yes same ↦
        let a = (slot_sector-lt n l i fits small lt).0 in
        let b = (slot_sector-lt n l j fits small ltj).0 in
        let apart : slot_offset i ≢ slot_offset j = λ o. ne (omega arith) in
        ap (λ k. dirent_unpack (drop (slot_offset j) (update g sector packed k))) same
        ∙ ap (λ x. dirent_unpack (drop (slot_offset j) x)) (update_self g sector packed)
        ∙ other_half i j e (g sector) apart
        ∙ ap (λ k. dirent_unpack (drop (slot_offset j) (g k))) (sym same)
  ]

  -- On a connection that holds sectors, dir_write_entry of an entry whose name is a terminated array
  -- and whose numbers fit 32 bits puts the entry into its slot and changes no other slot and no
  -- other sector.
  pub dir_write_entry-PutEntry :
      (s : Fs) → Holds n g s.link → IsPackable e → PutEntry n g l i e (dir_write_entry l i e) s tt
  unfolding dir_write_entry entry_at
  dir_write_entry-PutEntry s h v =
      let in_disk : sector < n = (slot_sector-lt n l i fits small lt).1 in
      let r = disk_read_idx_lem sector h in_disk in
      let size = length-Holds sector h in_disk in
      let w =
        disk_write_idx_lem sector packed r.post in_disk
          (length-splice (slot_offset i) (dirent_pack e) (g sector) ∙ size) in
      record {
        end = w.end;
        sectors = update g sector packed;
        eq = step _ (on_link_lem s r) ∙ on_link_lem (record s { link = r.end }) w;
        holds = w.post;
        here =
            ap (λ b. dirent_unpack (drop (slot_offset i) b)) (update_self g sector packed)
            ∙ dirent_unpack-dirent_pack e (slot_offset i) (g sector) v (omega (arith, size));
        slots = slots_after;
        elsewhere = λ k ne. update_ne g sector packed k ne;
      }
