-- ===== src/Fs/Link/Reading.antt =====
-- disk_read_idx of fs_server.c through the text of its request and the handler of the disk server.
use mathlib.Core.List.{append-nil}
use native.Mathlib.Nat.{mod-lt}
use mathlib.Core.Path.{ap₂}
use cs4440proj3_final.Prelude.{
  ℕ, ◌/◌, ◌%◌, ◌≤◌, ◌<◌, ◌≡◌, refl, ap, sym, ◌∙◌, true, false, List, [], ◌∷◌, ◌++◌, Bytes, length,
  ◌==◌, arith,
}
use cs4440proj3_final.Prelude.Int.{pos}
use cs4440proj3_final.Text.{newline, request, long_max}
use cs4440proj3_final.Text.Lines.{request_line, AllLong}
use cs4440proj3_final.Disk.{Server, seek}
use cs4440proj3_final.Disk.Blocks.{
  block, seek-SameDisk, SameDisk-IsSound, block-SameDisk, length-block, handle_R_lem,
}
use cs4440proj3_final.Disk.Serve.Requests.{serve_R}
use cs4440proj3_final.Fs.Exec.{ok, Runs}
use cs4440proj3_final.Fs.Words.{u32_mod}
use cs4440proj3_final.Fs.Link.{Link, has_newline, exchange, idx_to_cs, disk_read_idx}
use cs4440proj3_final.Fs.Link.Laws.{
  at_rest, Disk, Holds, has_newline-append, exchange_once, le_mul, le_mul_left, div-lt, receive_lem,
  receive_block,
}

module _ {n : ℕ} {g : ℕ → Bytes} {srv : Server} (d : Disk n g srv) (i : ℕ) (lt : i < n) where
  sec_bounds : (0 < srv.sec) × (srv.sec ≤ n)
  sec_bounds = (d.sound.sectors, rw (← d.size) (le_mul_left srv.cyl srv.sec d.sound.cylinders))

  cyl_bound : srv.cyl ≤ n
  cyl_bound = rw (← d.size) (le_mul srv.cyl srv.sec d.sound.sectors)

  pub c-lt : i / srv.sec < srv.cyl
  c-lt = div-lt srv.cyl srv.sec d.sound.sectors i (rw d.size lt)

  pub s-lt : i % srv.sec < srv.sec
  s-lt = mod-lt i d.sound.sectors

  pub idx_to_cs_lem : idx_to_cs i (at_rest srv) ≡ (ok (i / srv.sec, i % srv.sec), at_rest srv)
  unfolding idx_to_cs
  idx_to_cs_lem =
      let small : srv.sec % u32_mod ≡ srv.sec = omega (arith, sec_bounds.1, d.small) in
      rw small (ground (arith, sec_bounds.0))

  pub request-has_newline :
      (cmd : ℕ) (ns : List ℕ)
      → (cmd == newline) ≡ false
      → AllLong ns
      → has_newline (request cmd ns) ≡ true
  request-has_newline cmd ns h long =
      let (line, e, plain, short) = request_line cmd ns h long in rw e (has_newline-append line [])

  pub long_c : i / srv.sec ≤ long_max
  long_c = omega (arith, c-lt, cyl_bound, d.small)

  pub long_s : i % srv.sec ≤ long_max
  long_s = omega (arith, s-lt, sec_bounds.1, d.small)

  abbrev pub reading : Server
  reading = seek (pos (i / srv.sec)) srv

  pub exchange_R : exchange (request b'R' (i / srv.sec ∷ i % srv.sec ∷ [])) (at_rest srv) ≡ (
    ok tt,
    record (at_rest srv) {
      server = reading;
      replies = (b'1' ∷ []) ++ block srv (i / srv.sec) (i % srv.sec);
    },
  )
  exchange_R =
      exchange_once srv (request b'R' (i / srv.sec ∷ i % srv.sec ∷ []))
        ((b'1' ∷ []) ++ block srv (i / srv.sec) (i % srv.sec)) reading
        (request-has_newline b'R' _ refl (long_c, (long_s, tt)))
        (rw append-nil at (serve_R srv [] [] (i / srv.sec) (i % srv.sec) long_c long_s)
          ∙ handle_R_lem srv [] [] (i / srv.sec) (i % srv.sec) c-lt s-lt)

  read_eq : disk_read_idx i (at_rest srv) ≡ (ok (g i), record (at_rest srv) { server = reading })
  unfolding disk_read_idx
  read_eq =
      let b = block srv (i / srv.sec) (i % srv.sec) in
      let l = record (at_rest srv) { server = reading } in
      rw
        (
          idx_to_cs_lem,
          exchange_R,
          receive_lem l (b'1' ∷ []) b,
          receive_block l b (length-block (i / srv.sec) (i % srv.sec) d.sound c-lt s-lt),
        )
        (ap (λ (x : Bytes). (ok x, l)) (d.sectors i lt))

  pub Disk-reading : Disk n g reading
  Disk-reading =
      let same = seek-SameDisk (pos (i / srv.sec)) srv in
      record {
        sound = SameDisk-IsSound same d.sound;
        size = rw (same.cyl, same.sec) d.size;
        small = d.small;
        sectors = λ j p.
            ap (λ k. block reading (j / k) (j % k)) same.sec
            ∙ block-SameDisk same (j / srv.sec) (j % srv.sec)
            ∙ d.sectors j p;
      }

  pub rest_reading : record (at_rest srv) { server = reading } ≡ at_rest reading
  rest_reading =
      let same = seek-SameDisk (pos (i / srv.sec)) srv in
      ap₂ (λ c s. record (at_rest reading) { cyl = c; sec = s }) (sym same.cyl) (sym same.sec)

-- A sector has 128 bytes.
pub length-Holds :
    {n : ℕ} {g : ℕ → Bytes} {l : Link} (i : ℕ) → Holds n g l → i < n → length (g i) ≡ 128
length-Holds {l} i h lt =
    ap (λ (b : Bytes). length b) (sym (h.disk.sectors i lt))
    ∙ length-block (i / l.server.sec) (i % l.server.sec) h.disk.sound (c-lt h.disk i lt)
        (s-lt h.disk i lt)

-- On a connection that holds sectors, disk_read_idx of a sector on the disk returns what the sector
-- holds, and the connection holds the same sectors afterwards.
pub disk_read_idx_lem :
    {n : ℕ} {g : ℕ → Bytes} {l : Link} (i : ℕ)
    → Holds n g l
    → i < n
    → Runs (disk_read_idx i) l (g i) (Holds n g)
disk_read_idx_lem {l} i h lt = record {
  end = record (at_rest l.server) { server = reading h.disk i lt };
  eq = ap (disk_read_idx i) h.rest ∙ read_eq h.disk i lt;
  post = record { disk = Disk-reading h.disk i lt; rest = rest_reading h.disk i lt };
}
