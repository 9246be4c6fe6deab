-- ===== src/Fs/File/Roundtrip.antt =====
-- write_whole_file of fs_server.c with enough space, and read_whole_file after it.
use cs4440proj3_final.Prelude.{
  ℕ, suc, ◌+◌, ◌≤◌, ◌<◌, ◌≡◌, inl, inr, refl, ap, sym, ◌∙◌, true, false, some, List, [], ◌∷◌, Bytes,
  length, ◌==◌, arith, All, Bool-cases,
}
use cs4440proj3_final.Fs.Exec.{ok, step}
use cs4440proj3_final.Fs.Words.{u32_mod}
use cs4440proj3_final.Fs.Link.{Link}
use cs4440proj3_final.Fs.Link.Laws.{Holds}
use cs4440proj3_final.Fs.Dirent.{Dirent}
use cs4440proj3_final.Fs.State.{Fs, put_table}
use cs4440proj3_final.Fs.Fat.{fat_eof, alloc_loop}
use cs4440proj3_final.Fs.Fat.Tables.{free_from}
use cs4440proj3_final.Fs.Fat.Chains.{Chain, Avoids, Distinct, Data, clear, length-clear}
use cs4440proj3_final.Fs.Fat.Allocation.{Allocated, alloc_loop-Allocated}
use cs4440proj3_final.Fs.Fat.Replace.{
  Disjoint, free_from-clear, behind-Data, fresh-behind, fresh-lt, other-Chain,
}
use cs4440proj3_final.Fs.File.{
  blocks_for, data_start, allocate, fill, write_blocks, write_whole_file, read_whole_file,
}
use cs4440proj3_final.Fs.File.Stored.{Stored, Covers}
use cs4440proj3_final.Fs.File.Reading.{Quiet, read_whole_file-Stored}
use cs4440proj3_final.Fs.File.Writing.{write_blocks_lem}
use cs4440proj3_final.Fs.File.Release.{Ready, release_old}

blocks_for-Covers : (len : ℕ) → len + 127 < u32_mod → Covers (blocks_for len) len
unfolding blocks_for
blocks_for-Covers len h = record { enough = omega arith; needed = omega arith }

-- What write_whole_file ends with when there is space.
pub record Replaced (n : ℕ) (g : ℕ → Bytes) (e : Dirent) (old : List ℕ) (bytes : Bytes) (s : Fs)
    : Type 0 where
  pub entry : Dirent
  pub link : Link
  pub table : List ℕ
  pub blocks : List ℕ
  pub sectors : ℕ → Bytes
  pub eq :
      write_whole_file s.layout e bytes s
      ≡ (ok (some entry), record (put_table table s) { link = link })
  pub holds : Holds n sectors link
  pub size : length table ≡ length s.fat.v
  pub name : entry.name ≡ e.name
  pub used : entry.used ≡ e.used
  pub len : entry.len ≡ length bytes
  pub chain : Chain table entry.first blocks
  pub distinct : Distinct blocks
  pub in_disk : All (λ b. b < n) blocks
  pub stored : Stored sectors blocks bytes 0
  pub covers : Covers (length blocks) entry.len
  pub behind : All (λ b. data_start s.layout ≤ b) blocks
  pub elsewhere : (j : ℕ) → Avoids j blocks → sectors j ≡ g j
  pub others :
      (first : ℕ) (bs : List ℕ)
      → Chain s.fat.v first bs
      → Data bs
      → Disjoint old bs
      → Chain table first bs × All (λ b. sectors b ≡ g b) bs × Disjoint blocks bs

untouched :
    (g g' : ℕ → Bytes) (new bs : List ℕ)
    → ((j : ℕ) → Avoids j new → g' j ≡ g j)
    → Disjoint new bs
    → All (λ b. g' b ≡ g b) bs
untouched g g' new [] h out = tt
untouched g g' new (b ∷ bs) h out = (h b out.0, untouched g g' new bs h out.1)

module _ {n : ℕ} {g : ℕ → Bytes} {e : Dirent} {old : List ℕ} {s : Fs} (r : Ready n g e old s)
    (bytes : Bytes) where
  abbrev start : ℕ
  start = data_start s.layout

  abbrev freed : List ℕ
  freed = clear old s.fat.v

  -- what is left to show when the table, the disk and the result are known
  assemble :
      (k head : ℕ) (new v : List ℕ) (l : Link) (g' : ℕ → Bytes)
      → Allocated start r.start freed k head new v
      → write_whole_file s.layout e bytes s ≡ (
        ok (some (record e { first = head; len = length bytes })),
        record (put_table v s) { link = l },
      )
      → Holds n g' l
      → Stored g' new bytes 0
      → ((j : ℕ) → Avoids j new → g' j ≡ g j)
      → Covers (length new) (length bytes)
      → Replaced n g e old bytes s
  assemble k head new v l g' a eq h st out cov =
      let size = length-clear old s.fat.v in
      record {
        entry = record e { first = head; len = length bytes };
        link = l;
        table = v;
        blocks = new;
        sectors = g';
        eq = eq;
        holds = h;
        size = a.taken.size ∙ size;
        name = refl;
        used = refl;
        len = refl;
        chain = a.chain;
        distinct = a.taken.distinct;
        in_disk = fresh-lt start freed n new (omega (arith, size, r.table, r.fits)) a.taken.fresh;
        stored = st;
        behind = fresh-behind start freed new a.taken.fresh;
        elsewhere = out;
        covers = cov;
        others = λ first bs c d dis.
            let (c', dis') =
              other-Chain start r.start s.fat.v old new v k head a first bs c d dis in
            (c', untouched g g' new bs out dis', dis');
      }

  allocate_lem :
      (k : ℕ) {head : ℕ} {v : List ℕ}
      → alloc_loop (length freed) start k fat_eof (record { head = fat_eof; table = freed })
        ≡ (some head, v)
      → allocate s.layout k (put_table freed s) ≡ (ok (some head), put_table v s)
  unfolding allocate
  allocate_lem k {head} {v} h =
      let size : length freed ≡ s.layout.total_blocks = length-clear old s.fat.v ∙ r.table in
      ap (λ p. (ok p.0, put_table p.1 s))
        (ap (λ t. alloc_loop t start k fat_eof (record { head = fat_eof; table = freed }))
            (sym size)
          ∙ h)

  write_some :
      (length bytes == 0) ≡ false
      → (head : ℕ) (v : List ℕ) (l : Link)
      → alloc_loop
          (length freed)
          start
          (blocks_for (length bytes))
          fat_eof
          (record { head = fat_eof; table = freed })
        ≡ (some head, v)
      → write_blocks (suc (length bytes)) bytes 0 head (put_table v s)
        ≡ (ok tt, record (put_table v s) { link = l })
      → write_whole_file s.layout e bytes s ≡ (
        ok (some (record e { first = head; len = length bytes })),
        record (put_table v s) { link = l },
      )
  unfolding write_whole_file fill
  write_some more head v l loop written =
      step _ (release_old r)
      ∙ rw more (step _ (allocate_lem (blocks_for (length bytes)) loop) ∙ step _ written)

  write_none :
      (length bytes == 0) ≡ true
      → write_whole_file s.layout e bytes s
        ≡ (ok (some (record e { first = fat_eof; len = length bytes })), put_table freed s)
  unfolding write_whole_file
  write_none zero_len = step _ (release_old r) ∙ rw zero_len refl

-- For an entry in use with a chain in the data area, and with fewer than 2 ^ 32 - 127 bytes and space
-- for the blocks that they need, the freed ones counted in, write_whole_file ends with an entry of the
-- length of the bytes whose chain stores them. The chains of other files and their sectors stay as
-- they are.
pub write_whole_file-Replaced :
    (n : ℕ) (g : ℕ → Bytes) (e : Dirent) (old : List ℕ) (bytes : Bytes) (s : Fs)
    → Ready n g e old s
    → length bytes + 127 < u32_mod
    → blocks_for (length bytes) ≤ free_from (data_start s.layout) s.fat.v + length old
    → Replaced n g e old bytes s
write_whole_file-Replaced n g e old bytes s r small room =
    let first_data : ℕ = data_start s.layout in
    let v1 = clear old s.fat.v in
    let pos = behind-Data first_data old r.start r.behind in
    let size1 = length-clear old s.fat.v in
    let count =
      free_from-clear first_data s.fat.v e.first old r.start r.chain r.distinct r.behind pos in
    let (head, new, v2, loop, a) =
      alloc_loop-Allocated first_data r.start (blocks_for (length bytes)) v1
        (omega (arith, size1, r.table, r.fits, r.holds.disk.small)) (omega (arith, count)) in
    let cov = blocks_for-Covers (length bytes) small in
    let cov' : Covers (length new) (length bytes) = rw a.taken.count cov in
    elim (Bool-cases (length bytes == 0)) [
      | inl empty ↦
          assemble r bytes 0 fat_eof [] v1 s.link g
            (record {
              taken = record { count = refl; fresh = tt; distinct = tt; size = refl };
              chain = refl;
              others = λ i out. refl;
            })
            (write_none r bytes empty) r.holds tt (λ j out. refl)
            (record { enough = ground arith; needed = omega arith })
      | inr more ↦
          let w =
            write_blocks_lem n bytes g (suc (length bytes)) 0 new head (put_table v2 s) a.chain
              (fresh-lt first_data v1 n new (omega (arith, size1, r.table, r.fits)) a.taken.fresh)
              a.taken.distinct
              (record { enough = omega (arith, cov'.enough); needed = omega (arith, cov'.needed) })
              (omega (arith, cov'.needed)) r.holds in
          assemble r bytes (blocks_for (length bytes)) head new v2 w.end w.sectors a
            (write_some r bytes more head v2 w.end loop w.eq) w.holds w.here w.elsewhere cov'
    ]

-- For an entry in use with a chain in the data area, and with fewer than 2 ^ 32 - 127 bytes and space
-- for the blocks that they need, the freed ones counted in, write_whole_file succeeds, and read_whole_file on the new entry
-- returns the bytes that were written.
read_whole_file-write_whole_file :
    (n : ℕ) (g : ℕ → Bytes) (e : Dirent) (old : List ℕ) (bytes : Bytes) (s : Fs)
    → Ready n g e old s
    → length bytes + 127 < u32_mod
    → blocks_for (length bytes) ≤ free_from (data_start s.layout) s.fat.v + length old
    → (e' : Dirent) × (s' : Fs) × (g' : ℕ → Bytes) × (write_whole_file s.layout e bytes s
        ≡ (ok (some e'), s'))
      × Quiet n g' (read_whole_file e') s' bytes
read_whole_file-write_whole_file n g e old bytes s r small room =
    let w = write_whole_file-Replaced n g e old bytes s r small room in
    (
      w.entry,
      record (put_table w.table s) { link = w.link },
      w.sectors,
      w.eq,
      read_whole_file-Stored n w.sectors w.entry w.blocks bytes
          (record (put_table w.table s) { link = w.link }) w.holds w.chain w.in_disk w.stored w.len
          w.covers,
    )
