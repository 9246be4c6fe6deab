-- ===== src/Clients/FsCli/Rounds.antt =====
-- A round of fs_cli.c: a request that is typed goes to the server, and its reply is shown.
use mathlib.Core.List.{append_assoc}
use cs4440proj3_final.Prelude.{
  ℕ, ◌-◌, ◌^◌, ◌≤◌, ◌<◌, ◌≡◌, refl, ap, ◌∙◌, Bool, true, false, none, some, List, [], ◌∷◌, ◌++◌,
  Bytes, arith, length, length-append, take, drop, leb, ◌==◌,
}
use cs4440proj3_final.Text.{newline, space, print_dec, scan_word, scan_u32}
use cs4440proj3_final.Text.Lines.{Plain}
use cs4440proj3_final.Text.Decimal.{scan_u32-print_dec}
use cs4440proj3_final.Text.Strings.{NoNul, NoNul-append, c_string-NoNul}
use cs4440proj3_final.Text.Scanning.{IsWord, IsWord-Plain, scan_word-IsWord}
use cs4440proj3_final.Net.{write_all}
use cs4440proj3_final.Net.Payload.{take-all, drop-all}
use cs4440proj3_final.Disk.Serve.Requests.{line_of-Plain}
use cs4440proj3_final.Fs.Link.Laws.{take-length-append}
use cs4440proj3_final.Fs.Files.Sessions.{Request, format, create, delete, read, write, IsValid}
use cs4440proj3_final.Fs.Serve.Requests.{
  text, IsWritten, sizes, sizes-append, sizes_lem, text-write,
}
use cs4440proj3_final.Clients.FsCli.{
  FsCli, max_line, recv, show_reply, send_then, send_bytes, short_word, command_W, command,
  fs_cli_round,
}

-- the room of the buffer that the reply to a request is read into
abbrev pub limit : Request → ℕ
limit (write name bytes) = 31
limit (read name) = 63
limit format = 2047
limit (create name) = 2047
limit (delete name) = 2047

abbrev pub at_terminal : Bytes → List Bytes → FsCli → FsCli
at_terminal stdin arriving s = record s { stdin = stdin; arriving = arriving }

-- the client after a request and its reply
abbrev pub went : Bytes → Bytes → FsCli → FsCli
went sent shown s = record s {
  conn = record s.conn { output = s.conn.output ++ sent };
  stdout = s.stdout ++ shown;
}

recv_lem :
    (k : ℕ) (b : Bytes) (bs : List Bytes)
    → 0 < length b
    → length b ≤ k
    → recv k (b ∷ bs) ≡ (some b, bs)
unfolding recv
recv_lem k b bs ne fits =
    let some_bytes : (length b == 0) ≡ false = ground arith in
    let whole : leb (length b) k ≡ true = ground arith in rw (some_bytes, whole) refl

show_reply_lem :
    (k : ℕ) (b : Bytes) (bs : List Bytes) (s : FsCli)
    → 0 < length b
    → length b ≤ k
    → NoNul b
    → show_reply k (record s { arriving = b ∷ bs })
      ≡ (true, record s { arriving = bs; stdout = s.stdout ++ b })
unfolding show_reply
show_reply_lem k b bs s ne fits clean =
    rw (recv_lem k b bs ne fits, show_reply)
      (rw (recv_lem k b bs ne fits, c_string-NoNul b clean) refl)

send_then_lem :
    (bytes : Bytes) (next : FsCli → Bool × FsCli) (s : FsCli)
    → s.conn.room ≡ none
    → send_then bytes next s
      ≡ next (record s { conn = record s.conn { output = s.conn.output ++ bytes } })
unfolding send_then write_all
send_then_lem bytes next s room = rw room refl

line_round :
    (cmd : ℕ) (args rest : Bytes) (s : FsCli)
    → Plain (cmd ∷ args)
    → NoNul (cmd ∷ args)
    → length args < 4094
    → fs_cli_round (record s { stdin = cmd ∷ (args ++ (newline ∷ rest)) })
      ≡ command (cmd ∷ (args ++ (newline ∷ []))) (record s { stdin = rest })
unfolding fs_cli_round
line_round cmd args rest s plain clean short =
    let whole : NoNul ((cmd ∷ args) ++ (newline ∷ [])) =
      NoNul-append (cmd ∷ args) (newline ∷ []) clean (refl, tt) in
    rw
      (
        line_of-Plain (max_line - 1) (cmd ∷ args) rest plain (omega arith),
        c_string-NoNul ((cmd ∷ args) ++ (newline ∷ [])) whole,
      )
      (ground arith)

-- the text of a W is its line and its bytes
line_bytes :
    (name bytes : Bytes)
    → (b'W' ∷ (sizes name (length bytes) ++ (newline ∷ []))) ++ bytes ≡ text (write name bytes)
unfolding text
line_bytes name bytes =
    ap (λ t. b'W' ∷ t) (append_assoc (sizes name (length bytes)) (newline ∷ []) bytes)
    ∙ ap (λ t. b'W' ∷ t) (sizes-append name (length bytes) (newline ∷ bytes))

command_W_lem :
    (line name args more : Bytes) (len : ℕ) (s : FsCli)
    → scan_word args ≡ (name, more)
    → scan_u32 more ≡ some len
    → 0 < length name
    → length name < 32
    → command_W line args s ≡ send_then line (send_bytes len) s
unfolding command_W short_word
command_W_lem line name args more len s word number ne short =
    let named : (length name == 0) ≡ false = ground arith in
    let whole : (take 1023 name ≡ name) × (drop 1023 name ≡ []) =
      (take-all 1023 name (omega arith), drop-all 1023 name (omega arith)) in
    let read : scan_u32 (drop 1023 (scan_word args).0 ++ (scan_word args).1) ≡ some len =
      ap (λ (p : Bytes × Bytes). scan_u32 (drop 1023 p.0 ++ p.1)) word
      ∙ ap (λ d. scan_u32 (d ++ more)) whole.1
      ∙ number in
    rw (read, command_W) (rw (word, whole.0, named) refl)

send_bytes_lem :
    (bytes rest : Bytes) (s : FsCli)
    → send_bytes (length bytes) (record s { stdin = bytes ++ rest })
      ≡ send_then bytes (show_reply 31) (record s { stdin = rest })
unfolding send_bytes
send_bytes_lem bytes rest s =
    let long : leb (length bytes) (length (bytes ++ rest)) ≡ true =
      ground (arith, length-append bytes rest) in
    rw (long, (take-length-append bytes rest).0, (take-length-append bytes rest).1) refl

module _ (rest b : Bytes) (bs : List Bytes) (s : FsCli) (room : s.conn.room ≡ none)
    (ne : 0 < length b) (clean : NoNul b) where
  -- a line that is sent, and its reply
  sent_line :
      (k : ℕ) (line : Bytes)
      → length b ≤ k
      → send_then line (show_reply k) (at_terminal rest (b ∷ bs) s)
        ≡ (true, at_terminal rest bs (went line b s))
  sent_line k line fits =
      send_then_lem line (show_reply k) (at_terminal rest (b ∷ bs) s) room
      ∙ show_reply_lem k b bs
          (record s { conn = record s.conn { output = s.conn.output ++ line }; stdin = rest }) ne
          fits clean

  name_line :
      (cmd : ℕ) (name : Bytes)
      → (cmd == newline) ≡ false
      → (cmd == 0) ≡ false
      → IsWord name
      → NoNul name
      → length name < 32
      → fs_cli_round (at_terminal (cmd ∷ space ∷ (name ++ (newline ∷ rest))) (b ∷ bs) s)
        ≡ command (cmd ∷ space ∷ (name ++ (newline ∷ []))) (at_terminal rest (b ∷ bs) s)
  name_line cmd name nl nz word ok short =
      line_round cmd (space ∷ name) rest (at_terminal rest (b ∷ bs) s)
        (nl, (refl, IsWord-Plain name word)) (nz, (refl, ok)) (omega arith)

  pub fs_cli_round_lem :
      (r : Request)
      → IsValid r
      → IsWritten r
      → length b ≤ limit r
      → fs_cli_round (at_terminal (text r ++ rest) (b ∷ bs) s)
        ≡ (true, at_terminal rest bs (went (text r) b s))
  unfolding text command
  fs_cli_round_lem format valid word fits =
      line_round b'F' [] rest (at_terminal rest (b ∷ bs) s) (refl, tt) (refl, tt) (omega arith)
      ∙ sent_line 2047 (text format) fits
  fs_cli_round_lem (create name) valid word fits =
      rw (append_assoc, name_line b'C' name refl refl word valid.0 valid.2)
        (sent_line 2047 (text (create name)) fits)
  fs_cli_round_lem (delete name) valid word fits =
      rw (append_assoc, name_line b'D' name refl refl word valid.0 valid.2)
        (sent_line 2047 (text (delete name)) fits)
  fs_cli_round_lem (read name) valid word fits =
      rw (append_assoc, name_line b'R' name refl refl word valid.0 valid.2)
        (sent_line 63 (text (read name)) fits)
  fs_cli_round_lem (write name bytes) valid word fits =
      let len : ℕ = length bytes in
      let small : len < 2 ^ 32 = omega (arith, valid.1) in
      let args = sizes name len ++ (newline ∷ []) in
      let facts = sizes_lem name len word valid.0.0 valid.0.2 small in
      let sent = record s {
        conn = record s.conn { output = s.conn.output ++ (b'W' ∷ args) };
        arriving = b ∷ bs;
      } in
      ap (λ t. fs_cli_round (at_terminal t (b ∷ bs) s)) (text-write name bytes rest)
      ∙ line_round b'W' (sizes name len) (bytes ++ rest) (at_terminal [] (b ∷ bs) s) (refl, facts.1)
          (refl, facts.2) facts.0
      ∙ command_W_lem (b'W' ∷ args) name args (space ∷ (print_dec len ++ (newline ∷ []))) len
          (at_terminal (bytes ++ rest) (b ∷ bs) s)
          (ap scan_word (sizes-append name len (newline ∷ []))
            ∙ scan_word-IsWord name space (print_dec len ++ (newline ∷ [])) word valid.0.1 refl)
          (scan_u32-print_dec len (newline ∷ []) small refl) valid.0.1 valid.0.2
      ∙ send_then_lem (b'W' ∷ args) (send_bytes len) (at_terminal (bytes ++ rest) (b ∷ bs) s) room
      ∙ send_bytes_lem bytes rest sent
      ∙ send_then_lem bytes (show_reply 31) (record sent { stdin = rest }) room
      ∙ show_reply_lem 31 b bs
          (record sent {
            conn = record s.conn { output = (s.conn.output ++ (b'W' ∷ args)) ++ bytes };
            stdin = rest;
          })
          ne fits clean
      ∙ ap
          (λ out. (
            true,
            record s {
              conn = record s.conn { output = out };
              arriving = bs;
              stdin = rest;
              stdout = s.stdout ++ b;
            },
          ))
          (append_assoc s.conn.output (b'W' ∷ args) bytes
            ∙ ap (λ t. s.conn.output ++ t) (line_bytes name bytes))
