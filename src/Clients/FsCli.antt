-- ===== src/Clients/FsCli.antt =====
-- main of fs_cli.c behind the connection: command lines from the terminal, what goes to the filesystem
-- server, and what is printed of its replies. What the server sends is a parameter. Messages on stderr
-- are left out, and malloc does not fail.
pub mod Rounds
pub mod Forwarding
use cs4440proj3_final.Prelude.{
  ℕ, zero, suc, ◌-◌, Bool, true, false, Option, none, some, List, [], ◌∷◌, ◌++◌, Bytes, length,
  take, drop, leb, ◌==◌, if◌then◌else◌,
}
use cs4440proj3_final.Text.{c_string, scan_word, scan_u32}
use cs4440proj3_final.Net.{Conn, write_all, line_of}

-- The connection, what the server sends, in the pieces in which it arrives, with the end of the stream
-- or a failure behind them, what is still to be read from stdin, and what stands on stdout.
pub record FsCli : Type 0 where
  pub conn : Conn
  pub arriving : List Bytes
  pub stdin : Bytes
  pub stdout : Bytes

-- MAXLINE
abbrev pub max_line : ℕ
max_line = 4096

-- recv of at most `k` bytes: what it gives, and what is still to come.
unfoldable pub recv : ℕ → List Bytes → Option Bytes × List Bytes
recv k [] = (none, [])
recv k (piece ∷ pieces) =
    if length piece == 0
    then (none, pieces)
    else if leb (length piece) k
    then (some piece, pieces)
    else (some (take k piece), drop k piece ∷ pieces)

-- One recv into a buffer with room for `k` bytes and the NUL, printed; `false` is the break.
unfoldable pub show_reply : ℕ → FsCli → Bool × FsCli
show_reply k s =
    let (piece, left) = recv k s.arriving in
    elim piece [
      | none ↦ (false, record s { arriving = left })
      | some bytes ↦ (true, record s { arriving = left; stdout = s.stdout ++ c_string bytes })
    ]

unfoldable pub send_then : Bytes → (FsCli → Bool × FsCli) → FsCli → Bool × FsCli
send_then bytes next s =
    let (sent, conn) = write_all bytes s.conn in
    if sent then next (record s { conn = conn }) else (false, record s { conn = conn })

-- the bytes of a W, from stdin
unfoldable pub send_bytes : ℕ → FsCli → Bool × FsCli
send_bytes l s =
    if leb l (length s.stdin)
    then send_then (take l s.stdin) (show_reply 31) (record s { stdin = drop l s.stdin })
    else (false, record s { stdin = [] })

-- "%1023s": what is left of a longer word stays for "%u".
unfoldable pub short_word : Bytes → Bytes × Bytes
short_word args = let (word, rest) = scan_word args in (take 1023 word, drop 1023 word ++ rest)

-- A line with no name or no number is not sent.
unfoldable pub command_W : Bytes → Bytes → FsCli → Bool × FsCli
command_W line args s =
    let (name, rest) = short_word args in
    elim (scan_u32 rest) [
      | none ↦ (true, s)
      | some l ↦ if length name == 0 then (true, s) else send_then line (send_bytes l) s
    ]

unfoldable pub command : Bytes → FsCli → Bool × FsCli
command [] s = send_then [] (show_reply 2047) s
command (cmd ∷ args) s =
    if cmd == b'W'
    then command_W (cmd ∷ args) args s
    else if cmd == b'R'
    then send_then (cmd ∷ args) (show_reply 63) s
    else send_then (cmd ∷ args) (show_reply 2047) s

-- One round: fgets, the command.
unfoldable pub fs_cli_round : FsCli → Bool × FsCli
fs_cli_round s =
    let (line, rest) = line_of (max_line - 1) s.stdin in
    if length line == 0 then (false, s) else command (c_string line) (record s { stdin = rest })

-- The loop on fuel; `none` means that the fuel ran out. Every way out is the exit code 0.
unfoldable pub fs_cli_loop : ℕ → FsCli → Option FsCli
fs_cli_loop zero s = none
fs_cli_loop (suc fuel) s =
    let (more, s') = fs_cli_round s in
    let rest = fs_cli_loop fuel s' in if more then rest else some s'

-- Every round takes a byte off stdin, so this is fuel enough.
unfoldable pub fs_cli : FsCli → Option FsCli
fs_cli s = fs_cli_loop (suc (length s.stdin)) s
