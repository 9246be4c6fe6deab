-- ===== src/Clients/Cli/Ends.antt =====
-- How the loop of disk_cli.c ends, and where it leaves the array for the bytes of a W.
use cs4440proj3_final.Prelude.{
  ◌⊎◌, inl, inr, ◌+◌, set, replicate, length-set, length-replicate, ℕ, zero, suc, ◌≤◌, ◌<◌, ◌≡◌,
  ◌≢◌, refl, ap, ◌∙◌, Option, none, List, some, [], ◌∷◌, ◌++◌, Bytes, length, drop, arith,
  length-drop,
}
use cs4440proj3_final.Prelude.Int.{ℤ, pos}
use cs4440proj3_final.Text.{request, long_max, c_string}
use cs4440proj3_final.Text.Lines.{AllLong}
use cs4440proj3_final.Net.{line_of}
use cs4440proj3_final.Disk.Serve.{scan_longs}
use cs4440proj3_final.Disk.Serve.Requests.{scan_longs-words}
use cs4440proj3_final.Disk.Serve.Total.{length-line_of}
use cs4440proj3_final.Fs.Exec.{ok}
use cs4440proj3_final.Fs.Link.{exchange}
use cs4440proj3_final.Clients.Cli.{
  Cli, Next, again, leaves, exits_1, overrun, waiting, store, fill_tmp, payload_of, Payload, given,
  short, beyond, with_payload, command_W, command, command_I, command_R, show_block, send_W,
  cli_round, cli_loop, disk_cli,
}
use cs4440proj3_final.Clients.Cli.Blocks.{store-some, cli_round-request}

-- what is left of stdin
abbrev left : Cli → ℕ
left s = length s.stdin

send_W-left : (line bytes : Bytes) (s : Cli) → left (send_W line bytes s).1 ≡ left s
unfolding send_W
send_W-left line bytes s = ground arith

with_payload-left : (line : Bytes) (p : Payload) (s : Cli) → left (with_payload line p s).1 ≤ left s
unfolding with_payload
with_payload-left line (given bytes) s = omega (
  arith,
  send_W-left line bytes (record s { stdin = drop (length bytes) s.stdin }),
  length-drop (length bytes) s.stdin,
)
with_payload-left line short s = ground arith
with_payload-left line beyond s = ground arith

command_W-left :
    (line : Bytes) (o : Option (List ℤ)) (s : Cli) → left (command_W line o s).1 ≤ left s
unfolding command_W
command_W-left line none s = ground arith
command_W-left line (some []) s = ground arith
command_W-left line (some (c ∷ [])) s = ground arith
command_W-left line (some (c ∷ sn ∷ [])) s = ground arith
command_W-left line (some (c ∷ sn ∷ l ∷ [])) s = with_payload-left line (payload_of l s.stdin) s
command_W-left line (some (c ∷ sn ∷ l ∷ x ∷ r)) s = ground arith

command_I-left : (s : Cli) → left (command_I s).1 ≡ left s
unfolding command_I
command_I-left s = ground arith

command_R-left : (s : Cli) → left (command_R s).1 ≡ left s
unfolding command_R show_block
command_R-left s = ground arith

-- No command puts anything back to stdin.
command-left : (line : Bytes) (s : Cli) → left (command line s).1 ≤ left s
unfolding command
command-left [] s = omega arith
command-left (cmd ∷ rest) s = ground (
  arith,
  command_I-left (record s { link = (exchange (cmd ∷ rest) s.link).1 }),
  command_R-left (record s { link = (exchange (cmd ∷ rest) s.link).1 }),
  command_W-left (cmd ∷ rest) (scan_longs 3 rest) s,
)

-- A round that goes on has taken a byte off stdin.
cli_round-lt : (s : Cli) → (cli_round s).0 ≡ again → left (cli_round s).1 < left s
unfolding cli_round
cli_round-lt s h =
    let line = (line_of 4095 s.stdin).0 in
    let rest = (line_of 4095 s.stdin).1 in
    ground
      (arith, length-line_of 4095 s.stdin, command-left (c_string line) (record s { stdin = rest }))

pub cli_loop-step :
    (fuel : ℕ) (s : Cli)
    → (cli_round s).0 ≡ again
    → cli_loop (suc fuel) s ≡ cli_loop fuel (cli_round s).1
unfolding cli_loop
cli_loop-step fuel s h = rw (h, cli_loop)

stop :
    (next : Next) (fuel : ℕ) (s' : Cli)
    → next ≢ again
    → (elim next as (λ _. Option (Next × Cli)) [
      | again ↦ cli_loop fuel s'
      | leaves ↦ some (leaves, s')
      | exits_1 ↦ some (exits_1, s')
      | overrun ↦ some (overrun, s')
      | waiting ↦ some (waiting, s')
    ])
      ≡ some (next, s')
stop again fuel s' h = absurd (h refl)
stop leaves fuel s' h = refl
stop exits_1 fuel s' h = refl
stop overrun fuel s' h = refl
stop waiting fuel s' h = refl

cli_loop-stop :
    (fuel : ℕ) (s : Cli) → (cli_round s).0 ≢ again → cli_loop (suc fuel) s ≡ some (cli_round s)
unfolding cli_loop
cli_loop-stop fuel s h = stop (cli_round s).0 fuel (cli_round s).1 h

Next-discrete : Discrete Next
Next-discrete = hlevel

cli_loop_total :
    (fuel : ℕ) (s : Cli)
    → left s < fuel
    → (next : Next) × (s' : Cli) × (cli_loop fuel s ≡ some (next, s')) × (next ≢ again)
cli_loop_total zero s h = absurd (omega arith)
cli_loop_total (suc fuel) s h = elim (Next-discrete (cli_round s).0 again) [
  | yes more ↦
      let (next, s', e, ne) =
        cli_loop_total fuel (cli_round s).1 (omega (arith, cli_round-lt s more)) in
      (next, s', cli_loop-step fuel s more ∙ e, ne)
  | no ne ↦ ((cli_round s).0, (cli_round s).1, cli_loop-stop fuel s ne, ne)
]

-- The loop of disk_cli does not go on for ever: for every stdin a round comes that leaves it, exits, has
-- no meaning in C, or waits in recv.
disk_cli_total :
    (s : Cli) → (next : Next) × (s' : Cli) × (disk_cli s ≡ some (next, s')) × (next ≢ again)
unfolding disk_cli
disk_cli_total s = cli_loop_total (suc (left s)) s (omega arith)

lt_or_le : (i k : ℕ) → (i < k) ⊎ (k ≤ i)
lt_or_le i k = omega arith

store-none : (i ch : ℕ) (tmp : Bytes) → length tmp ≤ i → store i ch tmp ≡ none
unfolding store
store-none i ch tmp h = ground arith

-- More rounds than the array has room for, and a byte for each, end in a store behind its end.
fill_tmp-beyond :
    (k i : ℕ) (stdin tmp : Bytes)
    → length tmp < i + k
    → length tmp < i + length stdin
    → i ≤ length tmp
    → fill_tmp k i stdin tmp ≡ beyond
unfolding fill_tmp
fill_tmp-beyond zero i stdin tmp more bytes inside = absurd (omega arith)
fill_tmp-beyond (suc k) i [] tmp more bytes inside = absurd (omega arith)
fill_tmp-beyond (suc k) i (ch ∷ stdin) tmp more bytes inside = elim (lt_or_le i (length tmp)) [
  | inl lt ↦
      rw (fill_tmp, store-some i ch tmp lt)
        (fill_tmp-beyond k (suc i) stdin (set tmp i ch) (omega (arith, length-set tmp i ch))
          (omega (arith, length-set tmp i ch)) (omega (arith, length-set tmp i ch)))
  | inr ge ↦ rw (fill_tmp, store-none i ch tmp ge) refl
]

payload_of-beyond :
    (l : ℕ) (rest : Bytes) → 128 < l → 128 < length rest → payload_of (pos l) rest ≡ beyond
unfolding payload_of
payload_of-beyond l rest big more =
    let size = length-replicate {A = ℕ} 128 0 in
    fill_tmp-beyond l 0 rest (replicate 128 0) (omega (arith, size)) (omega (arith, size))
      (omega (arith, size))

with_payload-beyond :
    (line : Bytes) (s : Cli)
    → (exchange line s.link).0 ≡ ok tt
    → (with_payload line beyond s).0 ≡ overrun
unfolding with_payload
with_payload-beyond line s h = ground arith

-- A W line that goes out to the server, with a length above 128 and with more than 128 bytes behind it on
-- stdin: the loop that reads the bytes comes to a store behind the end of the array of 128 bytes.
pub cli_round-overrun :
    (s : Cli) (c sn l : ℕ) (rest : Bytes)
    → c ≤ long_max
    → sn ≤ long_max
    → 128 < l
    → l ≤ long_max
    → 128 < length rest
    → (exchange (request b'W' (c ∷ sn ∷ l ∷ [])) s.link).0 ≡ ok tt
    → (cli_round (record s { stdin = request b'W' (c ∷ sn ∷ l ∷ []) ++ rest })).0 ≡ overrun
unfolding command request command_W with_payload payload_of
cli_round-overrun s c sn l rest hc hs big small more sent =
    let long : AllLong (c ∷ sn ∷ l ∷ []) = (hc, (hs, (small, tt))) in
    ap (λ (r : Next × Cli). r.0)
      (cli_round-request b'W' (c ∷ sn ∷ l ∷ []) rest s refl refl long (omega arith))
    ∙ rw (scan_longs-words (c ∷ sn ∷ l ∷ []) long, payload_of-beyond l rest big more)
        (with_payload-beyond (request b'W' (c ∷ sn ∷ l ∷ [])) (record s { stdin = rest }) sent)
