-- ===== src/Fs/File/Full.antt =====
-- write_whole_file of fs_server.c when the blocks do not suffice.
use cs4440proj3_final.Prelude.{
  [], ◌∷◌, ℕ, zero, suc, ◌+◌, ◌<◌, ◌≡◌, refl, ap, sym, ◌∙◌, inl, inr, Option, none, some, List,
  Bytes, length, set, get_elem?, ◌≤◌, All, ◌==◌, true, false, if◌then◌else◌, arith, Option-cases,
  length-set,
}
use cs4440proj3_final.Fs.Exec.{ok, step}
use cs4440proj3_final.Fs.Dirent.{Dirent}
use cs4440proj3_final.Fs.State.{Fs, put_table}
use cs4440proj3_final.Fs.Fat.{fat_eof, fat_free_mark, find_free_block, Alloc, chain_on, alloc_loop}
use cs4440proj3_final.Fs.Fat.Tables.{
  free_from, free_from-set, find_free_block-some, find_free_block-none,
}
use cs4440proj3_final.Fs.Fat.Chains.{
  Chain, Avoids, Distinct, clear, length-clear, get_elem?-clear_ne,
}
use cs4440proj3_final.Fs.Fat.Allocation.{alloc_loop-none, alloc_loop-Allocated}
use cs4440proj3_final.Fs.Fat.Hanging.{IsFresh}
use cs4440proj3_final.Fs.Fat.Replace.{free_from-clear, behind-Data}
use cs4440proj3_final.Fs.File.{blocks_for, data_start, allocate, fill, write_whole_file}
use cs4440proj3_final.Fs.File.Release.{Ready, release_old}

length-chain_on : (prev b : ℕ) (a : Alloc) → length (chain_on prev b a).table ≡ length a.table
length-chain_on prev b a =
    elim (prev == fat_eof)
      as (λ t.
        length
          (if t
            then record { head = b; table = set a.table b fat_eof }
            else record a { table = set (set a.table b fat_eof) prev b }).table
        ≡ length a.table) [
          | true ↦ length-set a.table b fat_eof
          | false ↦ length-set (set a.table b fat_eof) prev b ∙ length-set a.table b fat_eof
        ]

-- When one more round would end without success, every free block is taken.
alloc_loop-full :
    (total start k prev : ℕ) (a : Alloc)
    → total ≡ length a.table
    → (alloc_loop total start (suc k) prev a).0 ≡ none
    → free_from start (alloc_loop total start k prev a).1 ≡ 0
unfolding alloc_loop
alloc_loop-full total start zero prev a size h =
    elim (Option-cases (find_free_block total start a.table)) [
      | inl e ↦
          find_free_block-none a.table start
            (ap (λ t. find_free_block t start a.table) (sym size) ∙ e)
      | inr (b, e) ↦
          let found : some (chain_on prev b a).head ≡ none = rw (alloc_loop, e) at h in
          absurd (ground (arith, found))
    ]
alloc_loop-full total start (suc k) prev a size h =
    elim (Option-cases (find_free_block total start a.table)) [
      | inl e ↦
          rw (alloc_loop, e)
            (find_free_block-none a.table start
              (ap (λ t. find_free_block t start a.table) (sym size) ∙ e))
      | inr (b, e) ↦
          rw (alloc_loop, e)
            (alloc_loop-full total start k b (chain_on prev b a)
              (size ∙ sym (length-chain_on prev b a)) (rw (alloc_loop, e) at h))
    ]

-- Without a free block the loop changes nothing.
alloc_loop-stuck :
    (total start k prev : ℕ) (a : Alloc)
    → total ≡ length a.table
    → free_from start a.table ≡ 0
    → (alloc_loop total start k prev a).1 ≡ a.table
unfolding alloc_loop
alloc_loop-stuck total start zero prev a size h = refl
alloc_loop-stuck total start (suc k) prev a size h =
    elim (Option-cases (find_free_block total start a.table)) [
      | inl e ↦ rw (alloc_loop, e) refl
      | inr (b, e) ↦
          let f =
            find_free_block-some a.table start {b = b}
              (ap (λ t. find_free_block t start a.table) (sym size) ∙ e) in
          absurd (omega (arith, free_from-set start a.table b fat_free_mark fat_eof f.0 f.1, h))
    ]

-- More rounds than there are free blocks leave the table as it is when these are taken.
alloc_loop-beyond :
    (total start k m prev : ℕ) (a : Alloc)
    → total ≡ length a.table
    → k ≤ m
    → free_from start (alloc_loop total start k prev a).1 ≡ 0
    → (alloc_loop total start m prev a).1 ≡ (alloc_loop total start k prev a).1
unfolding alloc_loop
alloc_loop-beyond total start zero m prev a size le h = alloc_loop-stuck total start m prev a size h
alloc_loop-beyond total start (suc k) zero prev a size le h = absurd (omega arith)
alloc_loop-beyond total start (suc k) (suc m) prev a size le h =
    elim (Option-cases (find_free_block total start a.table)) [
      | inl e ↦ rw (alloc_loop, e) refl
      | inr (b, e) ↦
          rw (alloc_loop, e)
            (alloc_loop-beyond total start k m b (chain_on prev b a)
              (size ∙ sym (length-chain_on prev b a)) (omega arith) (rw (alloc_loop, e) at h))
    ]

-- The cached table after a write for which there was no space: one chain, to which nothing points, has
-- taken all that was free and the blocks of the file, and what is outside of it and them is as before.
pub record Lost (start : ℕ) (v old v' : List ℕ) : Type 0 where
  pub head : ℕ
  pub blocks : List ℕ
  pub chain : Chain v' head blocks
  pub distinct : Distinct blocks
  pub behind : All (λ b. start ≤ b) blocks
  pub count : length blocks ≡ free_from start v + length old
  pub none_free : free_from start v' ≡ 0
  pub others : (j : ℕ) → Avoids j old → Avoids j blocks → get_elem? v' j ≡ get_elem? v j

behind_start : (start : ℕ) (v bs : List ℕ) → All (IsFresh start v) bs → All (λ b. start ≤ b) bs
behind_start start v [] f = tt
behind_start start v (b ∷ bs) f = (f.0.0, behind_start start v bs f.1)

module _ {n : ℕ} {g : ℕ → Bytes} {e : Dirent} {old : List ℕ} {s : Fs} (r : Ready n g e old s)
    (bytes : Bytes)
    (less : free_from (data_start s.layout) s.fat.v + length old < blocks_for (length bytes)) where
  abbrev result : Option ℕ × List ℕ
  result =
      alloc_loop s.layout.total_blocks (data_start s.layout) (blocks_for (length bytes)) fat_eof
        (record { head = fat_eof; table = clear old s.fat.v })

  size : s.layout.total_blocks ≡ length (clear old s.fat.v)
  size = sym (length-clear old s.fat.v ∙ r.table)

  result_none : result.0 ≡ none
  result_none =
      let first_data : ℕ = data_start s.layout in
      let pos = behind-Data first_data old r.start r.behind in
      let count =
        free_from-clear first_data s.fat.v e.first old r.start r.chain r.distinct r.behind pos in
      rw size (
        alloc_loop-none first_data r.start (blocks_for (length bytes)) (clear old s.fat.v)
          (omega (arith, size, r.fits, r.holds.disk.small)) (omega (arith, count)))

  some_bytes : (length bytes == 0) ≡ false
  unfolding blocks_for
  some_bytes = ground arith

  fill-none : (e' : Dirent) (s' : Fs) → fill bytes e' result.0 s' ≡ (ok none, s')
  unfolding fill
  fill-none e' s' = rw result_none refl

  lost : Lost (data_start s.layout) s.fat.v old result.1
  lost =
      let first_data : ℕ = data_start s.layout in
      let v = clear old s.fat.v in
      let pos = behind-Data first_data old r.start r.behind in
      let count =
        free_from-clear first_data s.fat.v e.first old r.start r.chain r.distinct r.behind pos in
      let free : ℕ = free_from first_data v in
      let (head, bs, v', eq, a) =
        alloc_loop-Allocated first_data r.start free v
          (omega (arith, size, r.fits, r.holds.disk.small)) (omega arith) in
      let empty : Alloc = record { head = fat_eof; table = v } in
      let whole : (alloc_loop s.layout.total_blocks first_data free fat_eof empty).1 ≡ v' =
        ap (λ t. (alloc_loop t first_data free fat_eof empty).1) size ∙ ap (λ p. p.1) eq in
      let none_left : (alloc_loop s.layout.total_blocks first_data (suc free) fat_eof empty).0
          ≡ none =
        rw size (
          alloc_loop-none first_data r.start (suc free) v
            (omega (arith, size, r.fits, r.holds.disk.small)) (omega arith)) in
      let gone =
        alloc_loop-full s.layout.total_blocks first_data free fat_eof empty size none_left in
      let same : result.1 ≡ v' =
        alloc_loop-beyond s.layout.total_blocks first_data free (blocks_for (length bytes)) fat_eof
          empty size (omega (arith, count)) (gone)
        ∙ whole in
      rw same (record {
        head = head;
        blocks = bs;
        chain = a.chain;
        distinct = a.taken.distinct;
        behind = behind_start first_data v bs a.taken.fresh;
        count = a.taken.count ∙ count;
        none_free = ap (free_from first_data) (sym whole) ∙ gone;
        others = λ j away out. a.others j out ∙ get_elem?-clear_ne old s.fat.v j away;
      })

  -- Without space for the blocks that the bytes need, the freed ones counted in, write_whole_file
  -- returns -2 and leaves the disk as it is; but the cached FAT is changed: the old chain of the
  -- file is freed, and no free block is left (`Lost`).
  pub write_whole_file-full :
      (v : List ℕ) × (write_whole_file s.layout e bytes s ≡ (ok none, put_table v s))
      × Lost (data_start s.layout) s.fat.v old v
  unfolding write_whole_file allocate
  write_whole_file-full = (result.1, step _ (release_old r) ∙ rw some_bytes (fill-none _ _), lost)
