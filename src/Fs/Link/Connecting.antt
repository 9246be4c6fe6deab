-- ===== src/Fs/Link/Connecting.antt =====
-- disk_connect of fs_server.c: the query for the geometry, whose reply is taken with one recv.
use mathlib.Core.List.{append-nil}
use cs4440proj3_final.Prelude.{
  ℕ, suc, ◌≤◌, ◌<◌, ◌≡◌, refl, ◌∙◌, true, Option, some, List, [], ◌∷◌, ◌++◌, Bytes, length, take,
  drop, min, ◌==◌, if◌then◌else◌, arith, length-append,
}
use cs4440proj3_final.Prelude.Int.{ℤ, pos}
use cs4440proj3_final.Text.{print_dec, words, request, newline, space, long_max}
use cs4440proj3_final.Text.Decimal.{scan_long-print_dec}
use cs4440proj3_final.Text.Lines.{length-print_dec}
use cs4440proj3_final.Net.Payload.{take-all, drop-all}
use cs4440proj3_final.Disk.{Server, to_size}
use cs4440proj3_final.Disk.Blocks.{handle_I_lem}
use cs4440proj3_final.Disk.Serve.{scan_longs}
use cs4440proj3_final.Disk.Serve.Requests.{serve_I, scan_longs-suc, scan_longs-words}
use cs4440proj3_final.Fs.Exec.{ok, io, Exec, ◌>>=◌, ◌>>◌, Runs}
use cs4440proj3_final.Fs.Link.{Link, Fate, exchange, nothing_more}
use cs4440proj3_final.Fs.Link.Laws.{at_rest, Disk, Holds, exchange_any, le_mul, le_mul_left}

-- The connection when `connect` has returned; its geometry is not known yet.
abbrev pub connected : Server → List Fate → Link
connected srv fates = record {
  server = srv;
  pending = [];
  replies = [];
  alive = true;
  fates = fates;
  cyl = 0;
  sec = 0;
}

-- One recv into a buffer of `room` bytes, of which this call fills at most `suc k`.
pub receive_some : ℕ → ℕ → Exec Link Bytes
receive_some room k l = if length l.replies == 0 then (nothing_more l, l) else (
  ok (take (min room (suc k)) l.replies),
  record l { replies = drop (min room (suc k)) l.replies },
)

-- what sscanf finds, as the 64 bits of two `long`
abbrev set_geometry : Option (List ℤ) → Exec Link (Unit {0})
set_geometry (some (c ∷ s ∷ [])) l = (ok tt, record l { cyl = to_size c; sec = to_size s })
set_geometry _ l = (io, l)

pub disk_connect : ℕ → Exec Link (Unit {0})
disk_connect k = do
  exchange (request b'I' [])
  text ← receive_some 63 k
  set_geometry (scan_longs 2 text)

-- the reply to I
abbrev pub reply_I : Server → Bytes
reply_I srv = print_dec srv.cyl ++ (space ∷ (print_dec srv.sec ++ (newline ∷ [])))

-- "%ld %ld" reads the two numbers of the reply.
pub scan_longs-geometry :
    (c s : ℕ)
    → c ≤ long_max
    → s ≤ long_max
    → scan_longs 2 (print_dec c ++ (space ∷ (print_dec s ++ (newline ∷ []))))
      ≡ some (pos c ∷ pos s ∷ [])
unfolding words
scan_longs-geometry c s hc hs =
    let rest = words (s ∷ []) (newline ∷ []) in
    scan_longs-suc 1 (print_dec c ++ rest) rest (pos c) (pos s ∷ [])
      (scan_long-print_dec c rest hc refl) (scan_longs-words (s ∷ []) (hs, tt))

pub length-reply_I :
    (srv : Server)
    → srv.cyl ≤ long_max
    → srv.sec ≤ long_max
    → (0 < length (reply_I srv)) × (length (reply_I srv) ≤ 40)
length-reply_I srv hc hs =
    let whole = length-append (print_dec srv.cyl) (space ∷ (print_dec srv.sec ++ (newline ∷ []))) in
    let tail = length-append (print_dec srv.sec) (newline ∷ []) in
    let c = length-print_dec srv.cyl hc in
    let s = length-print_dec srv.sec hs in (omega (arith, whole), omega (arith, whole, tail, c, s))

-- a reply that one recv gives whole
receive_some-whole :
    (room k : ℕ) (l : Link) (text : Bytes)
    → 0 < length text
    → length text ≤ min room (suc k)
    → receive_some room k (record l { replies = text }) ≡ (ok text, record l { replies = [] })
unfolding receive_some
receive_some-whole room k l text some_byte whole =
    rw (take-all (min room (suc k)) text whole, drop-all (min room (suc k)) text whole)
      (ground arith)

-- the exchange of the query
pub exchange_I :
    (srv : Server) (c s : ℕ)
    → exchange (request b'I' []) (record (at_rest srv) { cyl = c; sec = s })
      ≡ (ok tt, record (at_rest srv) { replies = reply_I srv; cyl = c; sec = s })
unfolding request
exchange_I srv c s =
    exchange_any srv (request b'I' []) (reply_I srv) srv c s refl
      (rw append-nil at (serve_I srv [] []) ∙ handle_I_lem srv [] [])

module _ {n : ℕ} {g : ℕ → Bytes} {srv : Server} (d : Disk n g srv) where
  pub cyl_long : srv.cyl ≤ long_max
  cyl_long = omega (
    arith,
    d.sound.sectors,
    d.sound.cylinders,
    d.size,
    d.small,
    le_mul srv.cyl srv.sec d.sound.sectors,
  )

  pub sec_long : srv.sec ≤ long_max
  sec_long = omega (arith, d.size, d.small, le_mul_left srv.cyl srv.sec d.sound.cylinders)

-- disk_connect to a disk server that holds sectors, whose reply to I one recv gives whole, leaves a
-- connection that holds these sectors, with the geometry of the server.
pub disk_connect-Holds :
    {n : ℕ} {g : ℕ → Bytes} {srv : Server} (k : ℕ)
    → Disk n g srv
    → 40 ≤ k
    → Runs (disk_connect k) (connected srv []) tt (Holds n g)
unfolding disk_connect
disk_connect-Holds {srv} k d whole = record {
  end = at_rest srv;
  eq =
      let long_c = cyl_long d in
      let long_s = sec_long d in
      let size = length-reply_I srv long_c long_s in
      let l = record (at_rest srv) { cyl = 0; sec = 0 } in
      rw
        (
          exchange_I srv 0 0,
          receive_some-whole 63 k l (reply_I srv) size.0 (omega (arith, size.1)),
          scan_longs-geometry srv.cyl srv.sec long_c long_s,
        )
        (ground arith);
  post = record { disk = d; rest = refl };
}
