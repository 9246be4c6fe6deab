-- ===== src/Fs/Files/Listing.antt =====
-- cmd_list of fs_server.c: a line for each entry in use.
use cs4440proj3_final.Prelude.{
  List, ◌∷◌, true, false, ◌≡◌, ℕ, zero, suc, ◌+◌, ◌≤◌, ◌<◌, refl, ap, ◌∙◌, Bool, [], ◌++◌, Bytes,
  ◌==◌, if◌then◌else◌, arith,
}
use cs4440proj3_final.Fs.Exec.{ok, step}
use cs4440proj3_final.Fs.Link.Laws.{Holds}
use mathlib.Core.List.{append_assoc}
use cs4440proj3_final.Text.{c_string, print_dec}
use cs4440proj3_final.Fs.Dirent.{Dirent}
use cs4440proj3_final.Fs.Layout.{Layout}
use cs4440proj3_final.Fs.State.{Fs}
use cs4440proj3_final.Fs.Directory.{dir_read_entry}
use cs4440proj3_final.Fs.Directory.Entries.{entry_at, Fits, dir_read_entry_lem}
use cs4440proj3_final.Fs.File.Reading.{Quiet}
use cs4440proj3_final.Fs.Commands.{list_line, list_from, reply_of, unformatted, cmd_list}
use cs4440proj3_final.Fs.Commands.Creating.{Running}

-- The entries in use among the `k` slots from `i` on, in their order.
unfoldable pub in_use_from : Layout → (ℕ → Bytes) → ℕ → ℕ → List Dirent
in_use_from l g zero i = []
in_use_from l g (suc k) i =
    let rest = in_use_from l g k (i + 1) in
    let e = entry_at l g i in if e.used == 0 then rest else e ∷ rest

-- A line for each of them: the name, and in a full listing a space and the length in decimal.
unfoldable pub lines_of : Bool → List Dirent → Bytes
lines_of brief [] = []
lines_of true (e ∷ es) = c_string e.name ++ (10 ∷ lines_of true es)
lines_of false (e ∷ es) = c_string e.name ++ (32 ∷ (print_dec e.len ++ (10 ∷ lines_of false es)))

list_line_lem :
    (brief : Bool) (e : Dirent) (es : List Dirent)
    → list_line brief e ++ lines_of brief es ≡ lines_of brief (e ∷ es)
unfolding list_line lines_of
list_line_lem true e es = append_assoc (c_string e.name) (10 ∷ []) (lines_of true es)
list_line_lem false e es =
    append_assoc (c_string e.name) (32 ∷ (print_dec e.len ++ (10 ∷ []))) (lines_of false es)
    ∙ ap (λ (l : Bytes). c_string e.name ++ (32 ∷ l))
        (append_assoc (print_dec e.len) (10 ∷ []) (lines_of false es))

-- Put before the others, an entry adds its line if it is in use.
listed-step :
    (brief : Bool) (e : Dirent) (es : List Dirent)
    → (if e.used == 0 then lines_of brief es else list_line brief e ++ lines_of brief es)
      ≡ lines_of brief (if e.used == 0 then es else e ∷ es)
listed-step brief e es =
    elim (e.used == 0)
      as (λ t.
        (if t then lines_of brief es else list_line brief e ++ lines_of brief es)
        ≡ lines_of brief (if t then es else e ∷ es)) [
          | true ↦ refl
          | false ↦ list_line_lem brief e es
        ]

list_from_lem :
    {n : ℕ} {g : ℕ → Bytes} (brief : Bool) (k i : ℕ) (s : Fs)
    → Holds n g s.link
    → Fits n s.layout
    → i + k ≤ s.layout.dir_entries
    → Quiet n g (list_from brief k i) s (lines_of brief (in_use_from s.layout g k i))
unfolding list_from in_use_from lines_of
list_from_lem brief zero i s h fits le = record { end = s.link; eq = refl; holds = h }
list_from_lem {g} brief (suc k) i s h fits le =
    let here : i < s.layout.dir_entries = omega arith in
    let r : Quiet _ g (dir_read_entry s.layout i) s (entry_at s.layout g i) =
      dir_read_entry_lem s.layout i h fits here in
    let later : i + 1 + k ≤ s.layout.dir_entries = omega arith in
    let more = list_from_lem brief k (i + 1) (record s { link = r.end }) r.holds fits later in
    record {
      end = more.end;
      eq =
          ap (λ p. (reply_of [] p.0, p.1)) (step _ r.eq ∙ step _ more.eq)
          ∙ ap (λ (b : Bytes). (ok b, record s { link = more.end }))
              (listed-step brief (entry_at s.layout g i) (in_use_from s.layout g k (i + 1)));
      holds = more.holds;
    }

-- On a running server cmd_list replies with a line for each entry in use and for no other, in the
-- order of the slots, and changes no sector. A line is the name up to its NUL, in the full listing with
-- a space and the length in decimal behind it, and the newline.
pub cmd_list-listing :
    {n : ℕ} {g : ℕ → Bytes} {s : Fs} (brief : Bool)
    → Running n g s
    → Quiet n g (cmd_list brief) s (lines_of brief (in_use_from s.layout g s.layout.dir_entries 0))
unfolding cmd_list
cmd_list-listing {s} brief run =
    let q = list_from_lem brief s.layout.dir_entries 0 s run.holds run.fits (omega arith) in
    record {
      end = q.end;
      eq =
          ap (λ t. if t then list_from brief s.layout.dir_entries 0 s else (ok unformatted, s))
            run.formatted
          ∙ q.eq;
      holds = q.holds;
    }
