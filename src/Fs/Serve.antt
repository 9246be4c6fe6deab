-- ===== src/Fs/Serve.antt =====
-- client_main of fs_server.c: the command lines of one client, until one ends the connection. The
-- server's state is the one that the handlers share; what other clients do in between is not here.
pub mod Total
pub mod Requests
pub mod Sessions
use cs4440proj3_final.Prelude.{
  ℕ, zero, suc, Bool, true, false, Option, none, some, [], ◌∷◌, Bytes, length, get_or, ◌==◌,
  if◌then◌else◌,
}
use cs4440proj3_final.Text.{c_string, scan_word, scan_u32, skip_space}
use cs4440proj3_final.Net.{Conn, readline, read_exact, write_all}
use cs4440proj3_final.Fs.Exec.{Res, ok, io, fault, waits, Exec}
use cs4440proj3_final.Fs.State.{Fs}
use cs4440proj3_final.Fs.Commands.{
  code, cmd_format, cmd_create, cmd_delete, cmd_list, cmd_read, cmd_write,
}

abbrev pub max_line : ℕ
max_line = 4096

pub record Client : Type 0 where
  pub conn : Conn
  pub fs : Fs

-- Whether the loop goes on, ends, has run into a fault, or waits for ever, with the mutex held.
pub data Next : Type 0 where
  again stop undefined waiting : Next

abbrev next_of : Res Bytes → Next
next_of (ok reply) = again
next_of io = again
next_of fault = undefined
next_of waits = waiting

abbrev pub written : Res Bytes → Conn → Conn
written (ok reply) c = (write_all reply c).1
written io c = c
written fault c = c
written waits c = c

-- A handler and its reply; whether the reply went out is not looked at.
unfoldable pub respond : Exec Fs Bytes → Client → Next × Client
respond m c = let (r, fs) = m c.fs in (next_of r, record { conn = written r c.conn; fs = fs })

-- cmd_write from the bytes of the client on; too few of them end the handler without a reply.
unfoldable pub receive_write : Bytes → ℕ → Client → Next × Client
receive_write name l c =
    let (data_bytes, conn) = read_exact l c.conn in
    elim data_bytes [
      | none ↦ (again, record c { conn = conn })
      | some bytes ↦ respond (cmd_write name bytes) (record c { conn = conn })
    ]

-- " W %s %u" on the line behind the W
unfoldable pub on_W : Bytes → Client → Next × Client
on_W args c =
    let (name, rest) = scan_word args in
    elim (scan_u32 rest) [
      | none ↦ respond (λ s. (ok (code b'2'), s)) c
      | some l ↦
          if length name == 0 then respond (λ s. (ok (code b'2'), s)) c else receive_write name l c
    ]

-- the switch on the command's letter
unfoldable pub on_command : ℕ → Bytes → Client → Next × Client
on_command cmd args c =
    let arg1 = (scan_word args).0 in
    if cmd == b'F'
    then respond cmd_format c
    else if cmd == b'C'
    then respond (cmd_create arg1) c
    else if cmd == b'D'
    then respond (cmd_delete arg1) c
    else if cmd == b'L'
    then respond (cmd_list (get_or arg1 0 0 == b'0')) c
    else if cmd == b'R'
    then respond (cmd_read arg1) c
    else if cmd == b'W'
    then on_W args c
    else (stop, c)

-- " %c": a line of spaces alone has no command
unfoldable pub on_line : Bytes → Client → Next × Client
on_line [] c = (stop, c)
on_line (cmd ∷ args) c = on_command cmd args c

unfoldable pub client_round : Client → Next × Client
client_round c =
    let (line, conn) = readline max_line c.conn in
    if length line == 0
    then (stop, record c { conn = conn })
    else on_line (skip_space (c_string line)) (record c { conn = conn })

abbrev pub goes_on : Next → Bool
goes_on again = true
goes_on stop = false
goes_on undefined = false
goes_on waiting = false

-- The loop on fuel; `none` means that the fuel ran out.
unfoldable pub client_loop : ℕ → Client → Option (Next × Client)
client_loop zero c = none
client_loop (suc fuel) c =
    let (next, c') = client_round c in
    let more = client_loop fuel c' in if goes_on next then more else some (next, c')

-- Every round takes a byte off the stream, so this is fuel enough.
unfoldable pub client_main : Client → Option (Next × Client)
client_main c = client_loop (suc (length c.conn.input)) c
