-- ===== src/Fs/Files/Clearing.antt =====
-- What format_fs of fs_server.c clears: sectors of zeros, an empty table in them, and a directory with
-- no entry.
use native.Mathlib.Decide.{ℕ_discrete}
use cs4440proj3_final.Prelude.{
  ℕ, zero, suc, ◌+◌, ◌-◌, ◌*◌, ◌%◌, ◌≤◌, ◌<◌, ◌≡◌, refl, ap, sym, ◌∙◌, ◌⊎◌, inl, true, ◌∷◌, Bytes,
  take, drop, replicate, splice, min, ◌==◌, arith, length-replicate,
}
use cs4440proj3_final.Fs.Exec.{ok, Exec, step}
use cs4440proj3_final.Fs.Words.{u32_mod, to_le, bytes_of}
use cs4440proj3_final.Fs.Link.{Link}
use cs4440proj3_final.Fs.Link.Laws.{Holds, update, update_self, update_ne}
use cs4440proj3_final.Fs.Link.Writing.{disk_write_idx_lem}
use cs4440proj3_final.Fs.Layout.{Layout}
use cs4440proj3_final.Fs.Dirent.{dirent_unpack}
use cs4440proj3_final.Fs.State.{Fs, on_link_lem}
use cs4440proj3_final.Fs.Fat.{per_sector, fat_sector}
use cs4440proj3_final.Fs.Fat.Pieces.{AllSmall, sub_zero, sub_suc, four_more, zeros-zeros}
use cs4440proj3_final.Fs.Directory.{slot_sector}
use cs4440proj3_final.Fs.Directory.Entries.{entry_at}
use cs4440proj3_final.Fs.Commands.{clear_sectors}

abbrev pub zeros : Bytes
zeros = replicate 128 0

-- The sectors `i` to `i + k` have been cleared, and no others.
pub record Cleared (n : ℕ) (g : ℕ → Bytes) (k i : ℕ) (m : Exec Fs (Unit {0})) (s : Fs)
    : Type 0 where
  pub end : Link
  pub sectors : ℕ → Bytes
  pub eq : m s ≡ (ok tt, record s { link = end })
  pub holds : Holds n sectors end
  pub here : (j : ℕ) → i ≤ j → j < i + k → sectors j ≡ zeros
  pub elsewhere : (j : ℕ) → (j < i) ⊎ (i + k ≤ j) → sectors j ≡ g j

pub clear_sectors-Cleared :
    (n : ℕ) (g : ℕ → Bytes) (k i : ℕ) (s : Fs)
    → Holds n g s.link
    → i + k ≤ n
    → Cleared n g k i (clear_sectors k i) s
unfolding clear_sectors
clear_sectors-Cleared n g zero i s h le = record {
  end = s.link;
  sectors = g;
  eq = refl;
  holds = h;
  here = λ j a b. absurd (omega arith);
  elsewhere = λ j out. refl;
}
clear_sectors-Cleared n g (suc k) i s h le =
    let small : n < u32_mod = h.disk.small in
    let wraps : i % u32_mod ≡ i = omega arith in
    let in_disk : i % u32_mod < n = omega arith in
    let w = disk_write_idx_lem (i % u32_mod) zeros h in_disk (length-replicate {A = ℕ} 128 0) in
    let g' = update g (i % u32_mod) zeros in
    let later : i + 1 + k ≤ n = omega arith in
    let more = clear_sectors-Cleared n g' k (i + 1) (record s { link = w.end }) w.post later in
    record {
      end = more.end;
      sectors = more.sectors;
      eq = step _ (on_link_lem s w) ∙ more.eq;
      holds = more.holds;
      here = λ j a lt. elim (ℕ_discrete j i) [
        | yes same ↦
            ap more.sectors same
            ∙ more.elsewhere i (inl (omega arith))
            ∙ ap g' (sym wraps)
            ∙ update_self g (i % u32_mod) zeros
        | no ne ↦ more.here j (omega arith) (omega arith)
      ];
      elsewhere =
          λ j out. more.elsewhere j (omega arith) ∙ update_ne g (i % u32_mod) zeros j (omega arith);
    }

suc-min : (a m : ℕ) → suc (min a m) ≡ min (suc a) (suc m)
suc-min a m = omega arith

min_zero : (m : ℕ) → 0 ≡ min 0 m
min_zero m = omega arith

none_taken : (a : ℕ) → 0 ≡ min (suc a) 0
none_taken a = omega arith

take-replicate : (a m : ℕ) → take a (replicate {A = ℕ} m 0) ≡ replicate (min a m) 0
take-replicate zero m = ap (λ k. replicate k 0) (min_zero m)
take-replicate (suc a) zero = ap (λ k. replicate k 0) (none_taken a)
take-replicate (suc a) (suc m) =
    ap (λ l. 0 ∷ l) (take-replicate a m) ∙ ap (λ k. replicate k 0) (suc-min a m)

none_left : (a : ℕ) → 0 ≡ 0 - suc a
none_left a = omega arith

drop-replicate : (a m : ℕ) → drop a (replicate {A = ℕ} m 0) ≡ replicate (m - a) 0
drop-replicate zero m = ap (λ k. replicate k 0) (sub_zero m)
drop-replicate (suc a) zero = ap (λ k. replicate k 0) (none_left a)
drop-replicate (suc a) (suc m) = drop-replicate a m ∙ ap (λ k. replicate k 0) (sub_suc m a)

bytes_of-zeros : (k : ℕ) → bytes_of (replicate k 0) ≡ replicate (4 * k) 0
unfolding bytes_of to_le
bytes_of-zeros zero = refl
bytes_of-zeros (suc k) = rw (four_more k) (ap (λ b. 0 ∷ 0 ∷ 0 ∷ 0 ∷ b) (bytes_of-zeros k))

pub zeros-AllSmall : (k : ℕ) → AllSmall (replicate k 0)
zeros-AllSmall zero = tt
zeros-AllSmall (suc k) = (omega arith, zeros-AllSmall k)

-- A sector of an empty table is a sector of zeros.
pub fat_sector-zeros : (l : Layout) (total idx : ℕ) → fat_sector l (replicate total 0) idx ≡ zeros
fat_sector-zeros l total idx =
    ap (λ v. splice 0 (bytes_of (take (min per_sector (l.total_blocks - idx)) v)) zeros)
      (drop-replicate idx total)
    ∙ ap (λ v. splice 0 (bytes_of v) zeros)
        (take-replicate (min per_sector (l.total_blocks - idx)) (total - idx))
    ∙ ap (λ b. splice 0 b zeros)
        (bytes_of-zeros (min (min per_sector (l.total_blocks - idx)) (total - idx)))
    ∙ zeros-zeros (4 * min (min per_sector (l.total_blocks - idx)) (total - idx)) 128

-- An entry in a sector of zeros is not in use.
pub zeros-unused :
    (l : Layout) (g : ℕ → Bytes) (j : ℕ)
    → g (slot_sector l j) ≡ zeros
    → ((entry_at l g j).used == 0) ≡ true
unfolding entry_at dirent_unpack
zeros-unused l g j e =
    ap (λ b. (dirent_unpack (drop (j % 2 * 64) b)).used == 0) e ∙ half (j % 2) (omega arith)
  where
    half : (k : ℕ) → k < 2 → ((dirent_unpack (drop (k * 64) zeros)).used == 0) ≡ true
    half zero lt = refl
    half (suc zero) lt = refl
    half (suc (suc k)) lt = absurd (omega arith)
