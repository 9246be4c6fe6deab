-- ===== src/Fs/State.antt =====
-- The state of fs_server.c that its handlers work on: server_state_t, with the disk connection of
-- the client's thread that holds the mutex.
use cs4440proj3_final.Prelude.{◌≡◌, ap, ℕ, Bool, List}
use cs4440proj3_final.Fs.Exec.{ok, Exec, Runs}
use cs4440proj3_final.Fs.Link.{Link}
use cs4440proj3_final.Fs.Layout.{Layout}

-- fat_cache_t; the table is empty where the pointer is NULL.
pub record FatCache : Type 0 where
  pub v : List ℕ
  pub loaded : Bool

pub record Fs : Type 0 where
  pub link : Link
  pub layout : Layout
  pub fat : FatCache
  pub formatted : Bool

-- an operation on the disk
abbrev pub on_link : {A : Type 0} → Exec Link A → Exec Fs A
on_link m s = let (r, l) = m s.link in (r, record s { link = l })

abbrev pub put_table : List ℕ → Fs → Fs
put_table v s = record s { fat = record s.fat { v = v } }

-- An operation on the disk changes the connection alone.
pub on_link_lem :
    {A : Type 0} {m : Exec Link A} (s : Fs) {a : A} {P : Link → Type 0} (r : Runs m s.link a P)
    → on_link m s ≡ (ok a, record s { link = r.end })
on_link_lem s r = ap (λ p. (p.0, record s { link = p.1 })) r.eq
