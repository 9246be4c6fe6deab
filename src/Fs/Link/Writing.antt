-- ===== src/Fs/Link/Writing.antt =====
-- disk_write_idx of fs_server.c through the text of its request and the handler of the disk server.
use mathlib.Core.List.{append-nil}
use native.Mathlib.Decide.{ℕ_discrete}
use mathlib.Core.Path.{ap₂, subst}
use cs4440proj3_final.Prelude.{
  ℕ, ◌/◌, ◌%◌, ◌≤◌, ◌<◌, ◌≡◌, refl, ap, sym, ◌∙◌, true, [], ◌∷◌, ◌++◌, Bytes, length, take, drop,
  arith,
}
use cs4440proj3_final.Prelude.Int.{pos}
use cs4440proj3_final.Text.{request}
use cs4440proj3_final.Disk.{Server, padded, handle_W}
use cs4440proj3_final.Disk.Blocks.{at, block, Wrote, handle_W_writes}
use cs4440proj3_final.Disk.Serve.Requests.{serve_W}
use cs4440proj3_final.Fs.Exec.{ok, Runs}
use cs4440proj3_final.Fs.Link.{Link, blksz, exchange, disk_write_idx}
use cs4440proj3_final.Fs.Link.Laws.{
  at_rest, Disk, Holds, update, update_self, update_ne, has_newline-more, exchange_once, apart,
  receive_lem,
}
use cs4440proj3_final.Fs.Link.Reading.{
  c-lt, s-lt, idx_to_cs_lem, request-has_newline, long_c, long_s,
}

take_all : (b : Bytes) → (take (length b) b ≡ b) × (drop (length b) b ≡ [])
take_all [] = (refl, refl)
take_all (x ∷ b) = (ap (λ l. x ∷ l) (take_all b).0, (take_all b).1)

pub padded_full : (b : Bytes) → length b ≡ 128 → padded b ≡ b
padded_full b size = rw size (append-nil b)

-- W of the bytes `buf`, with their number, to a sector on the disk.
module _ {n : ℕ} {g : ℕ → Bytes} {srv : Server} (d : Disk n g srv) (i : ℕ) (lt : i < n)
    (buf : Bytes) (fits : length buf ≤ 128) where
  pub written :
      (srv' : Server) × (handle_W
          (pos (i / srv.sec))
          (pos (i % srv.sec))
          (pos (length buf))
          (at srv buf [])
        ≡ (true, at srv' [] (b'1' ∷ [])))
      × Wrote srv (i / srv.sec) (i % srv.sec) (padded buf) srv'
  written =
      let (srv', e, w) =
        handle_W_writes srv buf [] (i / srv.sec) (i % srv.sec) (length buf) d.sound (c-lt d i lt)
          (s-lt d i lt) fits (omega arith) in
      (
        srv',
        e ∙ ap (λ r. (true, at srv' r (b'1' ∷ []))) (take_all buf).1,
        subst (λ b. Wrote srv (i / srv.sec) (i % srv.sec) (padded b) srv') (take_all buf).0 w,
      )

  abbrev pub after_write : Server
  after_write = written.0

  pub exchange_W :
      exchange (request b'W' (i / srv.sec ∷ i % srv.sec ∷ length buf ∷ []) ++ buf) (at_rest srv)
      ≡ (ok tt, record (at_rest srv) { server = after_write; replies = b'1' ∷ [] })
  exchange_W =
      exchange_once srv _ (b'1' ∷ []) after_write
        (has_newline-more (request b'W' (i / srv.sec ∷ i % srv.sec ∷ length buf ∷ [])) buf (
          request-has_newline d i lt b'W' _ refl
            (long_c d i lt, (long_s d i lt, (omega arith, tt)))))
        (serve_W srv buf [] (i / srv.sec) (i % srv.sec) (length buf) (long_c d i lt) (long_s d i lt)
            (omega arith)
          ∙ written.1)

  pub Disk-written : Disk n (update g i (padded buf)) after_write
  Disk-written =
      let w = written.2 in
      record {
        sound = w.sound;
        size = rw (w.cyl, w.sec) d.size;
        small = d.small;
        sectors = λ j p.
            ap (λ k. block after_write (j / k) (j % k)) w.sec ∙ (elim (ℕ_discrete j i) [
              | yes e ↦ rw e (w.here ∙ sym (update_self g i (padded buf)))
              | no ne ↦
                  w.elsewhere (j / srv.sec) (j % srv.sec) (c-lt d j p) (s-lt d j p)
                    (apart srv.cyl srv.sec d.sound.sectors i j (λ e. ne (sym e)))
                  ∙ d.sectors j p
                  ∙ sym (update_ne g i (padded buf) j ne)
            ]);
      }

  pub rest_written : record (at_rest srv) { server = after_write } ≡ at_rest after_write
  rest_written =
      let w = written.2 in
      ap₂ (λ c s. record (at_rest after_write) { cyl = c; sec = s }) (sym w.cyl) (sym w.sec)

module _ {n : ℕ} {g : ℕ → Bytes} {srv : Server} (d : Disk n g srv) (i : ℕ) (lt : i < n)
    (buf : Bytes) (full : length buf ≡ 128) where
  abbrev fits : length buf ≤ 128
  fits = omega arith

  exchange_block :
      exchange (request b'W' (i / srv.sec ∷ i % srv.sec ∷ blksz ∷ []) ++ buf) (at_rest srv)
      ≡ (ok tt, record (at_rest srv) { server = after_write d i lt buf fits; replies = b'1' ∷ [] })
  exchange_block =
      ap (λ k. exchange (request b'W' (i / srv.sec ∷ i % srv.sec ∷ k ∷ []) ++ buf) (at_rest srv))
        (sym full)
      ∙ exchange_W d i lt buf fits

  write_eq :
      disk_write_idx i buf (at_rest srv)
      ≡ (ok tt, record (at_rest srv) { server = after_write d i lt buf fits })
  unfolding disk_write_idx
  write_eq = rw (
    idx_to_cs_lem d i lt,
    exchange_block,
    receive_lem (record (at_rest srv) { server = after_write d i lt buf fits }) (b'1' ∷ []) [],
  )

-- On a connection that holds sectors, disk_write_idx of 128 bytes to a sector on the disk succeeds,
-- and the connection holds the same sectors afterwards but for this one, which has the bytes.
pub disk_write_idx_lem :
    {n : ℕ} {g : ℕ → Bytes} {l : Link} (i : ℕ) (buf : Bytes)
    → Holds n g l
    → i < n
    → length buf ≡ 128
    → Runs (disk_write_idx i buf) l tt (Holds n (update g i buf))
disk_write_idx_lem {n} {g} {l} i buf h lt full = record {
  end = record (at_rest l.server) {
    server = after_write h.disk i lt buf (fits h.disk i lt buf full);
  };
  eq = ap (disk_write_idx i buf) h.rest ∙ write_eq h.disk i lt buf full;
  post = record {
    disk =
        subst (λ b. Disk n (update g i b) (after_write h.disk i lt buf (fits h.disk i lt buf full)))
          (padded_full buf full) (Disk-written h.disk i lt buf (fits h.disk i lt buf full));
    rest = rest_written h.disk i lt buf (fits h.disk i lt buf full);
  };
}
