-- ===== src/Fs/Serve/Total.antt =====
-- Every round of client_main of fs_server.c takes something off the client's stream.
use mathlib.Core.Bool.{false≢true}
use cs4440proj3_final.Prelude.{
  ℕ, zero, suc, ◌-◌, ◌≤◌, ◌<◌, ◌≡◌, refl, inl, inr, Bool, true, false, some, [], ◌∷◌, Bytes, length,
  get_or, ◌==◌, if◌then◌else◌, arith, Bool-cases, Option-cases, length-drop,
}
use cs4440proj3_final.Text.{c_string, scan_word, scan_u32, skip_space}
use cs4440proj3_final.Net.{Conn, readline, read_exact, write_all, line_of}
use cs4440proj3_final.Disk.Serve.Total.{length-line_of}
use cs4440proj3_final.Fs.Exec.{Res, ok, io, fault, waits, Exec}
use cs4440proj3_final.Fs.State.{Fs}
use cs4440proj3_final.Fs.Commands.{cmd_format, cmd_create, cmd_delete, cmd_list, cmd_read}
use cs4440proj3_final.Fs.Serve.{
  Client, Next, stop, max_line, written, respond, receive_write, on_W, on_command, on_line,
  client_round, goes_on, client_loop, client_main,
}

-- what is left to be read
abbrev left : Client → ℕ
left c = length c.conn.input

left-write_all : (b : Bytes) (c : Conn) → length (write_all b c).1.input ≡ length c.input
unfolding write_all
left-write_all b c = ground arith

left-read_exact : (n : ℕ) (c : Conn) → length (read_exact n c).1.input ≤ length c.input
unfolding read_exact
left-read_exact n c = ground (arith, length-drop n c.input)

left-written : (r : Res Bytes) (c : Conn) → length (written r c).input ≡ length c.input
left-written (ok b) c = left-write_all b c
left-written io c = refl
left-written fault c = refl
left-written waits c = refl

respond-le : (m : Exec Fs Bytes) (c : Client) → left (respond m c).1 ≤ left c
unfolding respond
respond-le m c = omega (arith, left-written (m c.fs).0 c.conn)

receive_write-le : (name : Bytes) (l : ℕ) (c : Client) → left (receive_write name l c).1 ≤ left c
unfolding receive_write
receive_write-le name l c = elim (Option-cases (read_exact l c.conn).0) [
  | inl e ↦ rw (receive_write, e) (left-read_exact l c.conn)
  | inr (bytes, e) ↦
      rw (receive_write, e)
        (omega (
          arith,
          respond-le _ (record c { conn = (read_exact l c.conn).1 }),
          left-read_exact l c.conn,
        ))
]

-- a branch on a test
if-le :
    (b : Bool) (x y : Next × Client) (k : ℕ)
    → left x.1 ≤ k
    → left y.1 ≤ k
    → left (if b then x else y).1 ≤ k
if-le true x y k hx hy = hx
if-le false x y k hx hy = hy

on_W-le : (args : Bytes) (c : Client) → left (on_W args c).1 ≤ left c
unfolding on_W
on_W-le args c = elim (Option-cases (scan_u32 (scan_word args).1)) [
  | inl e ↦ rw (on_W, e) (respond-le _ c)
  | inr (l, e) ↦ rw (on_W, e) (if-le _ _ _ _ (respond-le _ c) (receive_write-le _ l c))
]

on_line-le : (line : Bytes) (c : Client) → left (on_line line c).1 ≤ left c
unfolding on_line on_command
on_line-le [] c = omega arith
on_line-le (cmd ∷ args) c =
    let a = (scan_word args).0 in
    let on_w : Next × Client = if cmd == b'W' then on_W args c else (stop, c) in
    let on_r : Next × Client = if cmd == b'R' then respond (cmd_read a) c else on_w in
    let list = cmd_list (get_or a 0 0 == b'0') in
    let on_l : Next × Client = if cmd == b'L' then respond list c else on_r in
    let on_d : Next × Client = if cmd == b'D' then respond (cmd_delete a) c else on_l in
    let on_c : Next × Client = if cmd == b'C' then respond (cmd_create a) c else on_d in
    let w = if-le (cmd == b'W') (on_W args c) (stop, c) (left c) (on_W-le args c) (omega arith) in
    let r =
      if-le (cmd == b'R') (respond (cmd_read a) c) on_w (left c) (respond-le (cmd_read a) c) w in
    let l = if-le (cmd == b'L') (respond list c) on_r (left c) (respond-le list c) r in
    let d =
      if-le (cmd == b'D') (respond (cmd_delete a) c) on_l (left c) (respond-le (cmd_delete a) c)
        l in
    let e =
      if-le (cmd == b'C') (respond (cmd_create a) c) on_d (left c) (respond-le (cmd_create a) c)
        d in
    if-le (cmd == b'F') (respond cmd_format c) on_c (left c) (respond-le cmd_format c) e

some_line : (line : Bytes) → (length line == 0) ≡ false → 0 < length line
some_line line h = ground arith

round-lt : (c : Client) → goes_on (client_round c).0 ≡ true → left (client_round c).1 < left c
unfolding client_round readline
round-lt c h =
    let line = (line_of (max_line - 1) c.conn.input).0 in
    let c' = record c {
      conn = record c.conn { input = (line_of (max_line - 1) c.conn.input).1 };
    } in
    elim (Bool-cases (length line == 0)) [
      | inl e ↦ absurd (false≢true (rw e at h))
      | inr e ↦
          rw (readline, e)
            (omega (
              arith,
              length-line_of (max_line - 1) c.conn.input,
              on_line-le (skip_space (c_string line)) c',
              some_line line e,
            ))
    ]

client_loop-total :
    (fuel : ℕ) (c : Client) → left c < fuel → (r : Next × Client) × (client_loop fuel c ≡ some r)
unfolding client_loop
client_loop-total zero c h = elim h [ ]
client_loop-total (suc fuel) c h = elim (Bool-cases (goes_on (client_round c).0)) [
  | inl go ↦
      let (r, e) = client_loop-total fuel (client_round c).1 (omega (arith, round-lt c go)) in
      (r, rw go e)
  | inr end ↦ (client_round c, rw end refl)
]

-- Whatever a client sends, however long it reads the replies and whatever the disk's connection
-- does, client_main does not go on serving requests for ever: its loop ends, or comes to a request
-- that is a fault or that waits for the disk server for ever.
client_main-total : (c : Client) → (r : Next × Client) × (client_main c ≡ some r)
unfolding client_main
client_main-total c = client_loop-total (suc (left c)) c (omega arith)
