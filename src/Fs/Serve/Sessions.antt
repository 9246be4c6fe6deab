-- ===== src/Fs/Serve/Sessions.antt =====
-- A client of fs_server.c that sends the text of some requests and then closes its side: what
-- client_main does is what a map of files says.
use cs4440proj3_final.Prelude.{ℕ, ◌<◌, ◌≡◌, Option, some, List, [], ◌∷◌, ◌++◌, Bytes, arith, length}
use cs4440proj3_final.Fs.Exec.{ok, Exec}
use cs4440proj3_final.Fs.State.{Fs}
use cs4440proj3_final.Fs.Serve.{Client, Next, stop, client_loop}
use cs4440proj3_final.Fs.Serve.Requests.{text, receiving}
use cs4440proj3_final.Fs.Files.{Stands}
use cs4440proj3_final.Fs.Files.Sessions.{
  Request, format, create, delete, read, write, perform, Does, NoRoom,
}

-- the texts of some requests, one after another
unfoldable pub texts : List Request → Bytes
unfolding text
texts [] = []
texts (r ∷ rs) = text r ++ texts rs

unfoldable pub all_of : List Bytes → Bytes
all_of [] = []
all_of (b ∷ bs) = b ++ all_of bs

-- Requests to a server and their replies, with the map of files and the state of the server before and
-- after them.
pub data Session (n : ℕ)
    : Fs
      → (Bytes → Option Bytes)
      → List Request
      → List Bytes
      → (Bytes → Option Bytes)
      → Fs
      → Type 0 where
  over : {s : Fs} {files : Bytes → Option Bytes} → Session n s files [] [] files s
  next :
      {s s' s'' : Fs} {files files' files'' : Bytes → Option Bytes} {r : Request}
      {rs : List Request} {reply : Bytes} {replies : List Bytes}
      → Does n s files r reply files'
      → perform r s ≡ (ok reply, s')
      → Session n s' files' rs replies files'' s''
      → Session n s files (r ∷ rs) (reply ∷ replies) files'' s''

-- The loop has sent the replies, and the server stands for the map afterwards.
pub record Answered (n : ℕ) (files : Bytes → Option Bytes) (rs : List Request) (c : Client)
    (result : Option (Next × Client)) : Type 0 where
  pub replies : List Bytes
  pub after : Bytes → Option Bytes
  pub end : Client
  pub session : Session n c.fs files rs replies after end.fs
  pub eq : result ≡ some (stop, end)
  pub output : end.conn.output ≡ c.conn.output ++ all_of replies
  pub stands : Stands n after end.fs

-- The loop has come to a write for which there is no space, and has served the requests before it.
pub record OutOfSpace (n : ℕ) (files : Bytes → Option Bytes) (rs : List Request) (c : Client)
    (result : Option (Next × Client)) : Type 0 where
  pub before : List Request
  pub name : Bytes
  pub bytes : Bytes
  pub rest : List Request
  pub split : rs ≡ before ++ (write name bytes ∷ rest)
  pub replies : List Bytes
  pub after : Bytes → Option Bytes
  pub end : Client
  pub fuel : ℕ
  pub session : Session n c.fs files before replies after end.fs
  pub eq : result ≡ client_loop fuel (receiving (texts (write name bytes ∷ rest)) end)
  pub output : end.conn.output ≡ c.conn.output ++ all_of replies
  pub stands : Stands n after end.fs
  pub no_room : NoRoom stands name (length bytes)

-- The client's state after a reply.
abbrev replied : Bytes → Fs → Client → Client
replied reply s c = record c { conn = record c.conn { output = c.conn.output ++ reply }; fs = s }

pub text-nonempty : (r : Request) → 0 < length (text r)
unfolding text
text-nonempty format = omega arith
text-nonempty (create name) = omega arith
text-nonempty (delete name) = omega arith
text-nonempty (read name) = omega arith
text-nonempty (write name bytes) = omega arith
