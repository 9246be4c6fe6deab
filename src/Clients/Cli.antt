-- ===== src/Clients/Cli.antt =====
-- main of disk_cli.c behind the connection: command lines from the terminal, their exchanges with the
-- disk server, and what is printed. Messages on stderr are left out.
pub mod Blocks
pub mod Digits
pub mod Ends
pub mod Session
use cs4440proj3_final.Prelude.{
  ℕ, zero, suc, ◌+◌, ◌-◌, ◌/◌, ◌%◌, Bool, true, false, not, ◌&&◌, Option, none, some, List, [], ◌∷◌,
  ◌++◌, Bytes, length, take, drop, get_or, set, replicate, ltb, leb, ◌==◌, if◌then◌else◌,
}
use cs4440proj3_final.Prelude.Int.{ℤ, pos, negsuc}
use cs4440proj3_final.Text.{newline, space, c_string}
use cs4440proj3_final.Net.{line_of}
use cs4440proj3_final.Disk.Serve.{scan_longs}
use cs4440proj3_final.Fs.Exec.{Res, ok, io, fault, waits, Exec, pure, raise, ◌>>=◌, ◌>>◌}
use cs4440proj3_final.Fs.Link.{Link, blksz, exchange, receive}
use cs4440proj3_final.Fs.Link.Connecting.{receive_some}

-- The connection, what is still to be read from stdin, and what stands on stdout. `piece` is how many
-- bytes but one the next recv of the reply to I takes at most.
pub record Cli : Type 0 where
  pub link : Link
  pub stdin : Bytes
  pub stdout : Bytes
  pub piece : ℕ

-- What a round of the loop ends with: the next round, the exit codes 0 and 1, a run without a
-- meaning in C, or a recv that waits for ever.
pub data Next : Type 0 where
  again leaves exits_1 overrun waiting : Next

-- MAXLINE
abbrev pub max_line : ℕ
max_line = 4096

abbrev pub on_link : {A : Type 0} → Exec Link A → Exec Cli A
on_link m s = let (r, l) = m s.link in (r, record s { link = l })

abbrev print : Bytes → Exec Cli (Unit {0})
print text s = (ok tt, record s { stdout = s.stdout ++ text })

-- `break` where a call has failed
abbrev or_leave : Exec Cli Next → Cli → Next × Cli
or_leave m s =
    let (r, s') = m s in
    (elim r [ ok next ↦ next | io ↦ leaves | fault ↦ overrun | waits ↦ waiting ], s')

-- "%02x"
abbrev pub hex_digit : ℕ → ℕ
hex_digit d = if ltb d 10 then b'0' + d else b'a' + (d - 10)

unfoldable pub hex : Bytes → Bytes
hex [] = []
hex (b ∷ bytes) = hex_digit (b / 16) ∷ hex_digit (b % 16) ∷ hex bytes

-- what is printed of a block
unfoldable pub summary : Bytes → Bytes
summary block = b'1' ∷ space ∷ (hex (take 32 block) ++ (space ∷ b'.' ∷ b'.' ∷ b'.' ∷ newline ∷ []))

unfoldable pub command_I : Exec Cli Next
command_I s = (do text ← on_link (receive_some 127 s.piece); print (c_string text); pure again) s

unfoldable pub show_block : Bytes → Exec Cli Next
show_block code =
    if get_or code 0 0 == b'0'
    then (do print (b'0' ∷ newline ∷ []); pure again)
    else (do block ← on_link (receive blksz); print (summary block); pure again)

unfoldable pub command_R : Exec Cli Next
command_R = do code ← on_link (receive 1); show_block code

-- What becomes of the length of a W and of the bytes behind it on stdin: the bytes, the end of stdin
-- before them, or an access behind the end of `tmp`, which has room for a block. A negative length
-- reads nothing, and write_all gets it as a huge size.
pub data Payload : Type 0 where
  given : Bytes → Payload
  short beyond : Payload

-- tmp[i] = ch; `none` where the array has no such place
unfoldable pub store : ℕ → ℕ → Bytes → Option Bytes
store i ch tmp = if ltb i (length tmp) then some (set tmp i ch) else none

-- The loop that reads the bytes into `tmp`, with the rounds that are left and the next place. Behind
-- it the first places of the array go to the server.
unfoldable pub fill_tmp : ℕ → ℕ → Bytes → Bytes → Payload
fill_tmp zero i stdin tmp = given (take i tmp)
fill_tmp (suc left) i [] tmp = short
fill_tmp (suc left) i (ch ∷ stdin) tmp = elim (store i ch tmp) [
  | none ↦ beyond
  | some tmp' ↦ fill_tmp left (suc i) stdin tmp'
]

unfoldable pub payload_of : ℤ → Bytes → Payload
payload_of (negsuc l) stdin = beyond
payload_of (pos l) stdin = fill_tmp l 0 stdin (replicate blksz 0)

unfoldable pub send_W : Bytes → Bytes → Exec Cli Next
send_W line bytes = do
  on_link (exchange (line ++ bytes))
  code ← on_link (receive 1)
  print (code ++ (newline ∷ []))
  pure again

-- The command line goes out before the bytes are read; the server waits for them behind it.
unfoldable pub with_payload : Bytes → Payload → Cli → Next × Cli
with_payload line (given bytes) s =
    or_leave (send_W line bytes) (record s { stdin = drop (length bytes) s.stdin })
with_payload line short s =
    or_leave (do on_link (exchange line); pure exits_1) (record s { stdin = [] })
with_payload line beyond s = or_leave (do on_link (exchange line); pure overrun) s

unfoldable pub command_W : Bytes → Option (List ℤ) → Cli → Next × Cli
command_W line (some (c ∷ sn ∷ l ∷ [])) s = with_payload line (payload_of l s.stdin) s
command_W line _ s =
    or_leave (do on_link (exchange line); print (b'b' ∷ b'a' ∷ b'd' ∷ newline ∷ []); pure again) s

unfoldable pub command : Bytes → Cli → Next × Cli
command [] s = (again, s)
command (cmd ∷ rest) s =
    let line = cmd ∷ rest in
    if cmd == b'I'
    then or_leave (do on_link (exchange line); command_I) s
    else if cmd == b'R'
    then or_leave (do on_link (exchange line); command_R) s
    else if cmd == b'W'
    then command_W line (scan_longs 3 rest) s
    else or_leave (do on_link (exchange line); pure again) s

-- One round: fgets, strlen of what it got, the command.
unfoldable pub cli_round : Cli → Next × Cli
cli_round s =
    let (line, rest) = line_of (max_line - 1) s.stdin in
    if length line == 0 then (leaves, s) else command (c_string line) (record s { stdin = rest })

-- The loop on fuel; `none` means that the fuel ran out.
unfoldable pub cli_loop : ℕ → Cli → Option (Next × Cli)
cli_loop zero s = none
cli_loop (suc fuel) s =
    let (next, s') = cli_round s in
    elim next [
      | again ↦ cli_loop fuel s'
      | leaves ↦ some (leaves, s')
      | exits_1 ↦ some (exits_1, s')
      | overrun ↦ some (overrun, s')
      | waiting ↦ some (waiting, s')
    ]

-- Every round takes a byte off stdin, so this is fuel enough.
unfoldable pub disk_cli : Cli → Option (Next × Cli)
disk_cli s = cli_loop (suc (length s.stdin)) s
