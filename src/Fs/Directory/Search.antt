-- ===== src/Fs/Directory/Search.antt =====
-- dir_find_by_name and dir_find_free of fs_server.c find the first slot that meets their test.
use mathlib.Core.Bool.{false≢true}
use cs4440proj3_final.Prelude.{
  ℕ, zero, suc, ◌+◌, ◌≤◌, ◌<◌, ◌≡◌, refl, ap, sym, ◌∙◌, ◌⊎◌, inl, inr, Bool, true, false, not, ◌&&◌,
  Option, none, some, Bytes, ◌==◌, arith, Bool-cases,
}
use cs4440proj3_final.Fs.Exec.{step}
use cs4440proj3_final.Fs.Link.Laws.{Holds}
use cs4440proj3_final.Fs.Layout.{Layout}
use cs4440proj3_final.Fs.Dirent.{Dirent, max_name, strncmp_eq}
use cs4440proj3_final.Fs.State.{Fs}
use cs4440proj3_final.Fs.File.Reading.{Quiet}
use cs4440proj3_final.Fs.Directory.{find_name, dir_find_by_name, find_unused, dir_find_free}
use cs4440proj3_final.Fs.Directory.Entries.{entry_at, Fits, dir_read_entry_lem}

-- an entry in use that has the name
abbrev pub matches : Bytes → Dirent → Bool
matches name e = not (e.used == 0) && strncmp_eq max_name e.name name

-- The first of the `k` numbers from `i` on that meets the test.
abbrev pub IsFirst : (ℕ → Bool) → ℕ → ℕ → Option ℕ → Type 0
IsFirst test i k none = (j : ℕ) → i ≤ j → j < i + k → test j ≡ false
IsFirst test i k (some m) =
    (i ≤ m) × (m < i + k) × (test m ≡ true) × ((j : ℕ) → i ≤ j → j < m → test j ≡ false)

IsFirst-here : (test : ℕ → Bool) (i k : ℕ) → test i ≡ true → IsFirst test i (suc k) (some i)
IsFirst-here test i k h = (omega arith, omega arith, h, λ j le lt. absurd (omega arith))

here_or_later : (i j : ℕ) → i ≤ j → (j ≡ i) ⊎ (i + 1 ≤ j)
here_or_later i j h = omega arith

IsFirst-later :
    (test : ℕ → Bool) (i k : ℕ) (o : Option ℕ)
    → test i ≡ false
    → IsFirst test (i + 1) k o
    → IsFirst test i (suc k) o
IsFirst-later test i k none h f =
    λ j le lt. elim (here_or_later i j le) [ inl e ↦ rw e h | inr more ↦ f j more (omega arith) ]
IsFirst-later test i k (some m) h (le, lt, at, before) = (
  omega arith,
  omega arith,
  at,
  λ j le_j lt_j. elim (here_or_later i j le_j) [ inl e ↦ rw e h | inr more ↦ before j more lt_j ],
)

order : (m m' : ℕ) → (m < m') ⊎ (m' < m) ⊎ (m ≡ m')
order m m' = omega arith

-- There is at most one such number.
pub IsFirst-unique :
    (test : ℕ → Bool) (i k : ℕ) (o o' : Option ℕ)
    → IsFirst test i k o
    → IsFirst test i k o'
    → o ≡ o'
IsFirst-unique test i k none none f f' = refl
IsFirst-unique test i k none (some m) f (le, lt, at, before) =
    absurd (false≢true (sym (f m le lt) ∙ at))
IsFirst-unique test i k (some m) none (le, lt, at, before) f' =
    absurd (false≢true (sym (f' m le lt) ∙ at))
IsFirst-unique test i k (some m) (some m') (le, lt, at, before) (le', lt', at', before') =
    ap some (elim (order m m') [
      | inl less ↦ absurd (false≢true (sym (before' m le less) ∙ at))
      | inr (inl more) ↦ absurd (false≢true (sym (before m' le' more) ∙ at'))
      | inr (inr same) ↦ same
    ])

-- the slot with its entry
abbrev pub slot_of : Layout → (ℕ → Bytes) → Option ℕ → Option (ℕ × Dirent)
slot_of l g none = none
slot_of l g (some i) = some (i, entry_at l g i)

module _ {n : ℕ} {g : ℕ → Bytes} (l : Layout) (fits : Fits n l) where
  find_name_lem :
      (name : Bytes) (k i : ℕ) (s : Fs)
      → Holds n g s.link
      → i + k ≤ l.dir_entries
      → (o : Option ℕ) × Quiet n g (find_name l name k i) s (slot_of l g o)
        × IsFirst (λ j. matches name (entry_at l g j)) i k o
  unfolding find_name
  find_name_lem name zero i s h le =
      (none, record { end = s.link; eq = refl; holds = h }, λ j a b. absurd (omega arith))
  find_name_lem name (suc k) i s h le =
      let bound : i < l.dir_entries = omega arith in
      let later : i + 1 + k ≤ l.dir_entries = omega arith in
      let r = dir_read_entry_lem l i h fits bound in
      let test = λ (j : ℕ). matches name (entry_at l g j) in
      let (o, more, first) =
        find_name_lem name k (i + 1) (record s { link = r.end }) r.holds later in
      elim (Bool-cases (test i)) [
        | inl yes_here ↦ (
          some i,
          record { end = r.end; eq = step _ r.eq ∙ rw yes_here refl; holds = r.holds },
          IsFirst-here test i k yes_here,
        )
        | inr not_here ↦ (
          o,
          record { end = more.end; eq = step _ r.eq ∙ rw not_here more.eq; holds = more.holds },
          IsFirst-later test i k o not_here first,
        )
      ]

  find_unused_lem :
      (k i : ℕ) (s : Fs)
      → Holds n g s.link
      → i + k ≤ l.dir_entries
      → (o : Option ℕ) × Quiet n g (find_unused l k i) s o
        × IsFirst (λ j. (entry_at l g j).used == 0) i k o
  unfolding find_unused
  find_unused_lem zero i s h le =
      (none, record { end = s.link; eq = refl; holds = h }, λ j a b. absurd (omega arith))
  find_unused_lem (suc k) i s h le =
      let bound : i < l.dir_entries = omega arith in
      let later : i + 1 + k ≤ l.dir_entries = omega arith in
      let r = dir_read_entry_lem l i h fits bound in
      let test = λ (j : ℕ). (entry_at l g j).used == 0 in
      let (o, more, first) = find_unused_lem k (i + 1) (record s { link = r.end }) r.holds later in
      elim (Bool-cases (test i)) [
        | inl yes_here ↦ (
          some i,
          record { end = r.end; eq = step _ r.eq ∙ rw yes_here refl; holds = r.holds },
          IsFirst-here test i k yes_here,
        )
        | inr not_here ↦ (
          o,
          record { end = more.end; eq = step _ r.eq ∙ rw not_here more.eq; holds = more.holds },
          IsFirst-later test i k o not_here first,
        )
      ]

  -- On a connection that holds sectors, dir_find_by_name finds the first slot in use whose entry has
  -- the name, or nothing if there is none; it changes no sector.
  pub dir_find_by_name-IsFirst :
      (name : Bytes) (s : Fs)
      → Holds n g s.link
      → (o : Option ℕ) × Quiet n g (dir_find_by_name l name) s (slot_of l g o)
        × IsFirst (λ j. matches name (entry_at l g j)) 0 l.dir_entries o
  unfolding dir_find_by_name
  dir_find_by_name-IsFirst name s h = find_name_lem name l.dir_entries 0 s h (omega arith)

  -- On a connection that holds sectors, dir_find_free finds the first slot that is not in use, or
  -- nothing if there is none; it changes no sector.
  pub dir_find_free-IsFirst :
      (s : Fs)
      → Holds n g s.link
      → (o : Option ℕ) × Quiet n g (dir_find_free l) s o
        × IsFirst (λ j. (entry_at l g j).used == 0) 0 l.dir_entries o
  unfolding dir_find_free
  dir_find_free-IsFirst s h = find_unused_lem l.dir_entries 0 s h (omega arith)
