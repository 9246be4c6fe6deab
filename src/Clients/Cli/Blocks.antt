-- ===== src/Clients/Cli/Blocks.antt =====
-- What disk_cli.c shows of the blocks of the disk server.
use mathlib.Core.List.{append_assoc, append-nil}
use cs4440proj3_final.Prelude.{
  ℕ, zero, suc, ◌+◌, set, take, replicate, some, sym, length-set, length-replicate, ◌≤◌, ◌<◌, ◌≡◌,
  refl, ap, ◌∙◌, false, List, [], ◌∷◌, ◌++◌, Bytes, length, arith, ◌==◌, length-append,
}
use cs4440proj3_final.Prelude.Int.{pos}
use cs4440proj3_final.Text.{request, newline}
use cs4440proj3_final.Text.Lines.{AllLong, request_line}
use cs4440proj3_final.Text.Strings.{c_string-NoNul, request-NoNul}
use cs4440proj3_final.Net.{line_of}
use cs4440proj3_final.Disk.{padded}
use cs4440proj3_final.Disk.Serve.Requests.{line_of-Plain, scan_longs-words}
use cs4440proj3_final.Fs.Link.{Link}
use cs4440proj3_final.Fs.Link.Laws.{Holds, update, take-length-append, receive_lem, receive_block}
use cs4440proj3_final.Fs.Link.Connecting.{cyl_long, sec_long}
use cs4440proj3_final.Clients.Exchanges.{length-sector, R-Answered, W-Answered, index}
use cs4440proj3_final.Clients.Cli.{
  Cli, again, summary, given, command_R, show_block, command_W, with_payload, send_W, payload_of,
  store, fill_tmp, command, cli_round,
}

-- A request at the front of stdin is the line that fgets gets.
pub cli_round-request :
    (cmd : ℕ) (ns : List ℕ) (rest : Bytes) (s : Cli)
    → (cmd == newline) ≡ false
    → (cmd == 0) ≡ false
    → AllLong ns
    → length ns ≤ 4
    → cli_round (record s { stdin = request cmd ns ++ rest })
      ≡ command (request cmd ns) (record s { stdin = rest })
unfolding cli_round
cli_round-request cmd ns rest s h nul long few =
    let (line, e, plain, short) = request_line cmd ns h long in
    let read : line_of 4095 (request cmd ns ++ rest) ≡ (request cmd ns, rest) =
      rw (e, append_assoc) (line_of-Plain 4095 line rest plain (omega arith)) in
    let size : 0 < length (request cmd ns) =
      rw e (omega (arith, length-append line (newline ∷ []))) in
    rw (read, c_string-NoNul (request cmd ns) (request-NoNul cmd ns nul)) (ground arith)

pub store-some : (i ch : ℕ) (tmp : Bytes) → i < length tmp → store i ch tmp ≡ some (set tmp i ch)
unfolding store
store-some i ch tmp h = ground arith

take-set :
    (i ch : ℕ) (tmp : Bytes)
    → i < length tmp
    → take (suc i) (set tmp i ch) ≡ take i tmp ++ (ch ∷ [])
take-set i ch [] h = absurd (omega arith)
take-set zero ch (x ∷ tmp) h = refl
take-set (suc i) ch (x ∷ tmp) h = ap (λ l. x ∷ l) (take-set i ch tmp (omega arith))

-- Bytes for which the array has room come behind those that are in it.
fill_tmp-given :
    (bytes : Bytes) (i : ℕ) (rest tmp : Bytes)
    → i + length bytes ≤ length tmp
    → fill_tmp (length bytes) i (bytes ++ rest) tmp ≡ given (take i tmp ++ bytes)
unfolding fill_tmp
fill_tmp-given [] i rest tmp fits = ap given (sym (append-nil (take i tmp)))
fill_tmp-given (ch ∷ bytes) i rest tmp fits =
    rw (fill_tmp, store-some i ch tmp (omega arith))
      (fill_tmp-given bytes (suc i) rest (set tmp i ch) (omega (arith, length-set tmp i ch))
        ∙ ap (λ (l : Bytes). given (l ++ bytes)) (take-set i ch tmp (omega arith))
        ∙ ap given (append_assoc (take i tmp) (ch ∷ []) bytes))

payload_of-given :
    (bytes rest : Bytes)
    → length bytes ≤ 128
    → payload_of (pos (length bytes)) (bytes ++ rest) ≡ given bytes
unfolding payload_of
payload_of-given bytes rest fits =
    fill_tmp-given bytes 0 rest (replicate 128 0) (omega (arith, length-replicate {A = ℕ} 128 0))

module _ {n : ℕ} {g : ℕ → Bytes} (s : Cli) (h : Holds n g s.link) (c sn : ℕ)
    (hc : c < s.link.server.cyl) (hs : sn < s.link.server.sec) where
  -- R with the numbers of a block prints the beginning of the block.
  pub cli_round-R :
      (rest : Bytes)
      → (l : Link) × (cli_round (record s { stdin = request b'R' (c ∷ sn ∷ []) ++ rest }) ≡ (
        again,
        record s { link = l; stdin = rest; stdout = s.stdout ++ summary (g (index h c sn hc hs)) },
      ))
        × Holds n g l
  unfolding command request command_R show_block
  cli_round-R rest =
      let a = R-Answered h c sn hc hs in
      let b = g (index h c sn hc hs) in
      let long : AllLong (c ∷ sn ∷ []) =
        (omega (arith, cyl_long h.disk), (omega (arith, sec_long h.disk), tt)) in
      (
        a.end,
        cli_round-request b'R' (c ∷ sn ∷ []) rest s refl refl long (omega arith)
            ∙ rw
                (
                  a.eq,
                  receive_lem a.end (b'1' ∷ []) b,
                  receive_block a.end b (length-sector h c sn hc hs),
                )
                (ap
                  (λ (k : Link).
                    (again, record s { link = k; stdin = rest; stdout = s.stdout ++ summary b }))
                  a.quiet),
        a.post,
      )

  -- W with the numbers of a block and at most 128 bytes behind the line stores them.
  pub cli_round-W :
      (bytes rest : Bytes)
      → length bytes ≤ 128
      → (l : Link) × (cli_round
            (record s { stdin = request b'W' (c ∷ sn ∷ length bytes ∷ []) ++ (bytes ++ rest) })
          ≡ (
            again,
            record s { link = l; stdin = rest; stdout = s.stdout ++ (b'1' ∷ newline ∷ []) },
          ))
        × Holds n (update g (index h c sn hc hs) (padded bytes)) l
        × (l.server.cyl ≡ s.link.server.cyl)
        × (l.server.sec ≡ s.link.server.sec)
  unfolding command request command_W payload_of with_payload send_W
  cli_round-W bytes rest fits =
      let a = W-Answered h c sn hc hs bytes fits in
      let long : AllLong (c ∷ sn ∷ length bytes ∷ []) =
        (omega (arith, cyl_long h.disk), (omega (arith, sec_long h.disk), (omega arith, tt))) in
      (
        a.end,
        cli_round-request b'W' (c ∷ sn ∷ length bytes ∷ []) (bytes ++ rest) s refl refl long
              (omega arith)
            ∙ rw
                (
                  scan_longs-words (c ∷ sn ∷ length bytes ∷ []) long,
                  payload_of-given bytes rest fits,
                  (take-length-append bytes rest).1,
                  a.eq,
                  receive_lem a.end (b'1' ∷ []) [],
                )
                (ap
                  (λ (k : Link). (
                    again,
                    record s { link = k; stdin = rest; stdout = s.stdout ++ (b'1' ∷ newline ∷ []) },
                  ))
                  a.quiet),
        a.post,
        a.cyl,
        a.sec,
      )
