-- ===== src/Fs/Files/Sessions.antt =====
-- A command of fs_server.c, whichever it is, against a map from names to contents.
use mathlib.Core.Path.{subst}
use mathlib.Core.Bool.{false≢true}
use cs4440proj3_final.Prelude.{
  ℕ, ◌+◌, ◌*◌, ◌^◌, ◌-◌, ◌≤◌, ◌<◌, ◌≡◌, refl, sym, ◌∙◌, ◌⊎◌, inl, inr, Option, none, some, [],
  Bytes, length, arith,
}
use cs4440proj3_final.Fs.Exec.{ok, Exec}
use cs4440proj3_final.Fs.Words.{u32_mod}
use cs4440proj3_final.Fs.State.{Fs}
use cs4440proj3_final.Fs.Fat.Tables.{free_from}
use cs4440proj3_final.Fs.File.{blocks_for, data_start}
use cs4440proj3_final.Fs.Protocol.{status}
use cs4440proj3_final.Fs.Commands.{cmd_format, cmd_create, cmd_delete, cmd_read, cmd_write}
use cs4440proj3_final.Fs.Commands.Writing.{cmd_write-full}
use cs4440proj3_final.Fs.Files.{IsName, IsFull, Has, Agrees, Stands}
use cs4440proj3_final.Fs.Files.Maps.{assign}
use cs4440proj3_final.Fs.Files.Lookup.{Has-Target, read_answer, cmd_read-Stands}
use cs4440proj3_final.Fs.Files.Deleting.{delete_answer, cmd_delete-Stands}
use cs4440proj3_final.Fs.Files.Making.{taken, no_slot, makes, cmd_create-Makes}
use cs4440proj3_final.Fs.Files.Storing.{write_answer, overwrite_in, cmd_write-Stands}
use cs4440proj3_final.Fs.Files.Formatting.{cmd_format-Stands}

-- A request of a client, as the handlers get it.
pub data Request : Type 0 where
  format : Request
  create delete read : Bytes → Request
  write : Bytes → Bytes → Request

unfoldable pub perform : Request → Exec Fs Bytes
perform format = cmd_format
perform (create name) = cmd_create name
perform (delete name) = cmd_delete name
perform (read name) = cmd_read name
perform (write name bytes) = cmd_write name bytes

abbrev pub IsValid : Request → Type 0
IsValid format = Unit {0}
IsValid (create name) = IsName name
IsValid (delete name) = IsName name
IsValid (read name) = IsName name
IsValid (write name bytes) = IsName name × (length bytes + 127 < u32_mod)

-- What a request to the server in state `s` does to a map of files: its reply, and the map afterwards.
-- Only a create looks at the state: it is refused where no slot of the directory is free.
pub data Does (n : ℕ) (s : Fs) (files : Bytes → Option Bytes)
    : Request → Bytes → (Bytes → Option Bytes) → Type 0 where
  formats : Does n s files format (status b'0') (λ name. none)
  creates :
      (name : Bytes)
      → files name ≡ none
      → Does n s files (create name) (status b'0') (assign name (some []) files)
  there_already :
      (name old : Bytes) → files name ≡ some old → Does n s files (create name) (status b'1') files
  no_slot_left :
      (name : Bytes)
      → files name ≡ none
      → IsFull n s
      → Does n s files (create name) (status b'2') files
  deletes :
      (name : Bytes)
      → Does n s files (delete name) (delete_answer (files name)) (assign name none files)
  reads : (name : Bytes) → Does n s files (read name) (read_answer (files name)) files
  writes :
      (name bytes : Bytes)
      → Does n s files
          (write name bytes)
          (write_answer (files name))
          (overwrite_in name bytes (files name) files)

-- There is no space for `size` bytes in the file of the name, its old blocks counted in.
abbrev pub NoRoom :
    {n : ℕ} {files : Bytes → Option Bytes} {s : Fs} → Stands n files s → Bytes → ℕ → Type 0
NoRoom {s} st name size =
    (i : ℕ) × Has s.layout st.g name i
    × (128 * (free_from (data_start s.layout) s.fat.v + length (st.consistent.blocks i)) < size)

-- One request.
pub data Served (n : ℕ) (files : Bytes → Option Bytes) (r : Request) (s : Fs) : Type 0 where
  done :
      (files' : Bytes → Option Bytes) (reply : Bytes) (s' : Fs)
      → Does n s files r reply files'
      → perform r s ≡ (ok reply, s')
      → Stands n files' s'
      → Served n files r s
  full :
      (st : Stands n files s) (name bytes old : Bytes) (s' : Fs)
      → r ≡ write name bytes
      → files name ≡ some old
      → NoRoom st name (length bytes)
      → perform (write name bytes) s ≡ (ok (status b'2'), s')
      → Served n files r s

split : (a b : ℕ) → (a ≤ b) ⊎ (b < a)
split a b = omega arith

module _ {n : ℕ} (small : n ≤ 2 ^ 30 - 32) (large : 35 ≤ n) where
  write-Served :
      {files : Bytes → Option Bytes} {s : Fs} (st : Stands n files s) (name bytes : Bytes)
      → IsName name
      → length bytes + 127 < u32_mod
      → (o : Option Bytes) → files name ≡ o
      → Agrees s.layout st.g st.consistent.bytes name o
      → Served n files (write name bytes) s
  unfolding perform blocks_for
  write-Served {files} {s} st name bytes valid fits none e a =
      let (s', eq, st') =
        cmd_write-Stands st name bytes valid fits
          (λ i h. absurd (false≢true (sym (a i h.0) ∙ h.1))) in
      done (overwrite_in name bytes (files name) files) (write_answer (files name)) s'
        (writes name bytes) eq st'
  write-Served {files} {s} st name bytes valid fits (some b) e (i, h, same) =
      let c = st.consistent in
      elim (split (length bytes)
        (128 * (free_from (data_start s.layout) s.fat.v + length (c.blocks i)))) [
          | inl room ↦
              let (s', eq, st') = cmd_write-Stands st name bytes valid fits (λ j k.
                subst
                  (λ q.
                    length bytes
                    ≤ 128 * (free_from (data_start s.layout) s.fat.v + length (c.blocks q)))
                  (c.unique name i j valid h k) room) in
              done (overwrite_in name bytes (files name) files) (write_answer (files name)) s'
                (writes name bytes) eq st'
          | inr less ↦
              let (v, l, eq, holds, none_free) =
                cmd_write-full c.mounted name bytes (Has-Target c name valid i h)
                  (omega (arith, less)) in
              full st name bytes b _ refl e (i, h, less) eq
        ]

  pub perform-Served :
      {files : Bytes → Option Bytes} {s : Fs}
      → Stands n files s
      → (r : Request) → IsValid r
      → Served n files r s
  unfolding perform
  perform-Served {files} {s} st format valid =
      let (s', eq, st') =
        cmd_format-Stands n st.g s st.consistent.mounted.running.holds small large in
      done (λ name. none) (status b'0') s' formats eq st'
  perform-Served {files} {s} st (create name) valid = elim (cmd_create-Makes st name valid) [
    | taken b s' e eq st' ↦ done files (status b'1') s' (there_already name b e) eq st'
    | no_slot s' e used eq st' ↦ done files (status b'2') s' (no_slot_left name e used) eq st'
    | makes s' e eq st' ↦
        done (assign name (some []) files) (status b'0') s' (creates name e) eq st'
  ]
  perform-Served {files} {s} st (delete name) valid =
      let (s', eq, st') = cmd_delete-Stands st name valid in
      done (assign name none files) (delete_answer (files name)) s' (deletes name) eq st'
  perform-Served {files} {s} st (read name) valid =
      let (s', eq, st') = cmd_read-Stands st name valid in
      done files (read_answer (files name)) s' (reads name) eq st'
  perform-Served {files} {s} st (write name bytes) valid =
      write-Served st name bytes valid.0 valid.1 (files name) refl (st.agrees name valid.0)
