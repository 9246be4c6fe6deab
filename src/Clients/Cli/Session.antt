-- ===== src/Clients/Cli/Session.antt =====
-- A session of disk_cli.c: a write and a read of the same block.
use cs4440proj3_final.Prelude.{
  ℕ, suc, ◌+◌, ◌*◌, ◌≤◌, ◌<◌, ◌≡◌, refl, ap, ◌∙◌, some, [], ◌∷◌, ◌++◌, Bytes, length, All, take,
  replicate, ◌-◌,
}
use cs4440proj3_final.Text.{words, request, newline}
use cs4440proj3_final.Net.{line_of}
use cs4440proj3_final.Disk.{padded}
use cs4440proj3_final.Fs.Link.{Link}
use cs4440proj3_final.Fs.Link.Laws.{Holds, update, update_self}
use cs4440proj3_final.Clients.Exchanges.{index}
use cs4440proj3_final.Clients.Cli.{
  hex, Cli, Next, again, leaves, summary, cli_round, cli_loop, disk_cli,
}
use cs4440proj3_final.Clients.Cli.Digits.{read_hex, read_hex-hex, All-take, All-padded}
use cs4440proj3_final.Clients.Cli.Ends.{cli_loop-step}
use cs4440proj3_final.Clients.Cli.Blocks.{cli_round-R, cli_round-W}

cli_loop-more :
    (fuel : ℕ) (s : Cli) {s' : Cli}
    → cli_round s ≡ (again, s')
    → cli_loop (suc fuel) s ≡ cli_loop fuel s'
cli_loop-more fuel s e =
    cli_loop-step fuel s (ap (λ (r : Next × Cli). r.0) e)
    ∙ ap (λ (r : Next × Cli). cli_loop fuel r.1) e

cli_loop-end :
    (fuel : ℕ) (s : Cli)
    → cli_loop (suc fuel) (record s { stdin = [] }) ≡ some (leaves, record s { stdin = [] })
unfolding cli_loop cli_round line_of
cli_loop-end fuel s = refl

module _ {n : ℕ} {g : ℕ → Bytes} (s : Cli) (h : Holds n g s.link) (c sn : ℕ)
    (hc : c < s.link.server.cyl) (hs : sn < s.link.server.sec) (bytes : Bytes)
    (fits : length bytes ≤ 128) where
  -- what is typed
  abbrev typed : Bytes
  typed = request b'W' (c ∷ sn ∷ length bytes ∷ []) ++ (bytes ++ (request b'R' (c ∷ sn ∷ []) ++ []))

  -- what is on the disk then
  abbrev pub changed : ℕ → Bytes
  changed = update g (index h c sn hc hs) (padded bytes)

  abbrev shown : Bytes
  shown = (s.stdout ++ (b'1' ∷ newline ∷ [])) ++ summary (padded bytes)

  rounds :
      (fuel : ℕ)
      → (l : Link) × (cli_loop (suc (suc (suc fuel))) (record s { stdin = typed })
          ≡ some (leaves, record s { link = l; stdin = []; stdout = shown }))
        × Holds n changed l
  rounds fuel =
      let (l, e, h', cyl, sec) =
        cli_round-W s h c sn hc hs bytes (request b'R' (c ∷ sn ∷ []) ++ []) fits in
      let s' : Cli = record s { link = l; stdout = s.stdout ++ (b'1' ∷ newline ∷ []) } in
      let hc' : c < l.server.cyl = rw cyl hc in
      let hs' : sn < l.server.sec = rw sec hs in
      let (l', e', h'') = cli_round-R s' h' c sn hc' hs' [] in
      let same : changed (index h' c sn hc' hs') ≡ padded bytes =
        ap (λ k. changed (c * k + sn)) sec ∙ update_self g (index h c sn hc hs) (padded bytes) in
      (
        l',
        cli_loop-more (suc (suc fuel)) _ e
            ∙ cli_loop-more (suc fuel) _ e'
            ∙ cli_loop-end fuel (record s {
              link = l';
              stdout =
                  (s.stdout ++ (b'1' ∷ newline ∷ [])) ++ summary (changed (index h' c sn hc' hs'));
            })
            ∙ ap
                (λ (b : Bytes). some (
                  leaves,
                  record s {
                    link = l';
                    stdin = [];
                    stdout = (s.stdout ++ (b'1' ∷ newline ∷ [])) ++ summary b;
                  },
                ))
                same,
        h'',
      )

-- On a connection that holds sectors a user who types W for a block with at most 128 bytes behind it,
-- then R for the block, and then ends stdin, sees a 1, and then a 1 with hexadecimal digits behind it
-- that stand for the first 32 bytes of what was typed, zeros behind it counted in; disk_cli exits
-- with 0, and the connection holds the typed bytes in this block and what it held elsewhere.
pub disk_cli-shows :
    {n : ℕ} {g : ℕ → Bytes} (s : Cli) (h : Holds n g s.link) (c sn : ℕ) (hc : c < s.link.server.cyl)
    (hs : sn < s.link.server.sec) (bytes : Bytes)
    → length bytes ≤ 128
    → All (λ b. b < 256) bytes
    → (l : Link) × (digits : Bytes) × (disk_cli (record s {
      stdin =
          request b'W' (c ∷ sn ∷ length bytes ∷ [])
          ++ (bytes ++ (request b'R' (c ∷ sn ∷ []) ++ []));
    })
        ≡ some (
          leaves,
          record s {
            link = l;
            stdin = [];
            stdout =
                (s.stdout ++ (49 ∷ 10 ∷ []))
                ++ (49 ∷ 32 ∷ (digits ++ (32 ∷ 46 ∷ 46 ∷ 46 ∷ 10 ∷ [])));
          },
        ))
      × (read_hex digits ≡ some (take 32 (bytes ++ replicate (128 - length bytes) 0)))
      × Holds n (update g (index h c sn hc hs) (bytes ++ replicate (128 - length bytes) 0)) l
unfolding disk_cli request words summary
disk_cli-shows s h c sn hc hs bytes fits small =
    let block : Bytes = bytes ++ replicate (128 - length bytes) 0 in
    let (l, e, held) = rounds s h c sn hc hs bytes fits _ in
    (
      l,
      hex (take 32 block),
      e,
      read_hex-hex (take 32 block)
          (All-take 32 block (All-padded (128 - length bytes) bytes small)),
      held,
    )
