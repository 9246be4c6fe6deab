-- ===== src/Fs/Link.antt =====
-- The connection of a client's thread in fs_server.c to the disk server, and the two operations on
-- sectors by their index. The disk server of `Disk` answers at the other end.
pub mod Laws
pub mod Connecting
pub mod Reading
pub mod Writing
use cs4440proj3_final.Prelude.{
  ℕ, zero, suc, ◌*◌, ◌/◌, ◌%◌, ◌^◌, Bool, true, false, ◌||◌, Option, none, some, List, [], ◌∷◌,
  ◌++◌, Bytes, length, take, drop, leb, ◌==◌, if◌then◌else◌, get_or,
}
use cs4440proj3_final.Text.{newline, request}
use cs4440proj3_final.Net.{Conn}
use cs4440proj3_final.Disk.{Server, Session}
use cs4440proj3_final.Disk.Blocks.{at}
use cs4440proj3_final.Disk.Serve.{serve_round}
use cs4440proj3_final.Fs.Words.{u32_mod}
use cs4440proj3_final.Fs.Exec.{Res, ok, io, fault, waits, Exec, pure, raise, ◌>>=◌, ◌>>◌}

abbrev pub blksz : ℕ
blksz = 128

-- What happens to an exchange: all of it arrives, or the connection breaks before the request or
-- before the reply is through.
pub data Fate : Type 0 where
  delivered lost_request lost_reply : Fate

-- disk_t, with what is behind its descriptor: the server, the bytes that it has not read yet, its
-- replies that have not been read, whether it still serves, and the fates of the exchanges to come
-- (after the last one all arrive). `cyl` and `sec` are the 64 bits of a `long`.
pub record Link : Type 0 where
  pub server : Server
  pub pending : Bytes
  pub replies : Bytes
  pub alive : Bool
  pub fates : List Fate
  pub cyl : ℕ
  pub sec : ℕ

abbrev pub has_newline : Bytes → Bool
has_newline [] = false
has_newline (c ∷ s) = (c == newline) || has_newline s

-- The server's thread, as far as whole lines have arrived. Every round takes one.
serve_ready : ℕ → Session → Bool × Session
serve_ready zero s = (true, s)
serve_ready (suc fuel) s =
    let (go, s') = serve_round s in
    let more = serve_ready fuel s' in
    if has_newline s.conn.input then (if go then more else (false, s')) else (true, s)

-- the server gets `bytes` and answers
deliver : Bytes → Link → Link
deliver bytes l =
    let input = l.pending ++ bytes in
    let (alive, s) = serve_ready (length input) (at l.server input l.replies) in
    record l { server = s.server; pending = s.conn.input; replies = s.conn.output; alive = alive }

abbrev next_fate : List Fate → Fate
next_fate [] = delivered
next_fate (f ∷ fs) = f

-- write_all on the connection, and the server's answer to it
pub exchange : Bytes → Exec Link (Unit {0})
exchange bytes l =
    let l' : Link = record l { fates = drop 1 l.fates } in
    if l.alive
    then elim (next_fate l.fates) [
      | delivered ↦ (ok tt, deliver bytes l')
      | lost_request ↦ (io, record l' { alive = false })
      | lost_reply ↦ (ok tt, record (deliver bytes l') { alive = false; replies = [] })
    ]
    else (io, l)

-- What recv does where nothing has arrived: on a broken connection it fails, on a live one it waits.
abbrev pub nothing_more : {A : Type 0} → Link → Res A
nothing_more l = if l.alive then waits else io

-- read_exact(d->fd, buf, n) == n
pub receive : ℕ → Exec Link Bytes
receive n l =
    if leb n (length l.replies)
    then (ok (take n l.replies), record l { replies = drop n l.replies })
    else (nothing_more l, record l { replies = [] })

-- uint32_t arithmetic; a division by zero is a fault
pub idx_to_cs : ℕ → Exec Link (ℕ × ℕ)
idx_to_cs idx l =
    let sec : ℕ = l.sec % u32_mod in if sec == 0 then (fault, l) else (ok (idx / sec, idx % sec), l)

abbrev expect_one : Bytes → Exec Link (Unit {0})
expect_one code = if get_or code 0 0 == b'1' then pure tt else raise io

pub disk_read_idx : ℕ → Exec Link Bytes
disk_read_idx idx = do
  (c, s) ← idx_to_cs idx
  exchange (request b'R' (c ∷ s ∷ []))
  code ← receive 1
  expect_one code
  receive blksz

pub disk_write_idx : ℕ → Bytes → Exec Link (Unit {0})
disk_write_idx idx bytes = do
  (c, s) ← idx_to_cs idx
  exchange (request b'W' (c ∷ s ∷ blksz ∷ []) ++ bytes)
  code ← receive 1
  expect_one code
