-- ===== src/Disk/Serve.antt =====
-- client_main of disk_server.c: command lines off a connection, until one ends it.
pub mod Total
pub mod Requests
use cs4440proj3_final.Prelude.{
  ℕ, zero, suc, Bool, true, false, Option, none, some, List, [], ◌∷◌, Bytes, length, ◌==◌, ◌||◌,
  if◌then◌else◌,
}
use cs4440proj3_final.Prelude.Int.{ℤ}
use cs4440proj3_final.Text.{newline, scan_long}
use cs4440proj3_final.Net.{Conn, readline}
use cs4440proj3_final.Disk.{Session, handle_I, handle_R, handle_W}

abbrev pub max_line : ℕ
max_line = 1024

-- sscanf with as many "%ld" as the first argument says; `none` is a count that is too small.
pub scan_longs : ℕ → Bytes → Option (List ℤ)
scan_longs zero s = some []
scan_longs (suc n) s = elim (scan_long s) [
  | none ↦ none
  | some (v, rest) ↦ elim (scan_longs n rest) [ none ↦ none | some vs ↦ some (v ∷ vs) ]
]

abbrev pub on_R : Option (List ℤ) → Session → Bool × Session
on_R (some (c ∷ sn ∷ [])) s = handle_R c sn s
on_R _ s = (false, s)

abbrev pub on_W : Option (List ℤ) → Session → Bool × Session
on_W (some (c ∷ sn ∷ l ∷ [])) s = handle_W c sn l s
on_W _ s = (false, s)

-- One command line; `false` leaves the loop.
pub serve_line : Bytes → Session → Bool × Session
serve_line [] s = (false, s)
serve_line (c ∷ rest) s =
    if (c == newline) || (c == 0)
    then (true, s)
    else if c == b'I'
    then handle_I s
    else if c == b'R'
    then on_R (scan_longs 2 rest) s
    else if c == b'W'
    then on_W (scan_longs 3 rest) s
    else (false, s)

-- One round of the loop.
pub serve_round : Session → Bool × Session
serve_round s =
    let (line, conn) = readline max_line s.conn in serve_line line (record s { conn = conn })

-- The loop on fuel; `none` means that the fuel ran out.
pub serve_loop : ℕ → Session → Option Session
serve_loop zero s = none
serve_loop (suc fuel) s =
    let (go, s') = serve_round s in let more = serve_loop fuel s' in if go then more else some s'

-- A whole connection. Every round takes a byte off the stream, so this is fuel enough.
pub serve : Session → Option Session
serve s = serve_loop (suc (length s.conn.input)) s
