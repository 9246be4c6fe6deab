-- ===== src/Clients/Exchanges.antt =====
-- One exchange of a request for a block, by its cylinder and sector, on a connection that holds
-- sectors.
use native.Mathlib.Nat.{mul-add-div_right, mul-add-mod_self_right, div-eq_of_lt, mod-eq_of_lt}
use mathlib.Core.Path.{ap₂, subst}
use cs4440proj3_final.Prelude.{
  ℕ, ◌+◌, ◌*◌, ◌/◌, ◌%◌, ◌≤◌, ◌<◌, ◌≡◌, refl, ap, sym, ◌∙◌, [], ◌∷◌, ◌++◌, Bytes, length, arith,
}
use cs4440proj3_final.Text.{request}
use cs4440proj3_final.Disk.{padded}
use cs4440proj3_final.Disk.Bounds.{index-lt}
use cs4440proj3_final.Disk.Blocks.{block, seek-SameDisk}
use cs4440proj3_final.Fs.Exec.{ok}
use cs4440proj3_final.Fs.Link.{Link, blksz, exchange}
use cs4440proj3_final.Fs.Link.Laws.{at_rest, Holds, update}
use cs4440proj3_final.Fs.Link.Reading.{
  length-Holds, reading, exchange_R, Disk-reading, rest_reading,
}
use cs4440proj3_final.Fs.Link.Writing.{
  padded_full, written, after_write, exchange_W, Disk-written, rest_written,
}

-- An exchange that leaves a reply on a connection that holds the sectors `g`.
pub record Answered (n : ℕ) (g : ℕ → Bytes) (bytes : Bytes) (l : Link) (reply : Bytes)
    : Type 0 where
  pub end : Link
  pub eq : exchange bytes l ≡ (ok tt, record end { replies = reply })
  pub quiet : record end { replies = [] } ≡ end
  pub post : Holds n g end
  pub cyl : end.server.cyl ≡ l.server.cyl
  pub sec : end.server.sec ≡ l.server.sec

-- the index of a block, and its coordinates
index-div : (c s sec : ℕ) → s < sec → ((c * sec + s) / sec ≡ c) × ((c * sec + s) % sec ≡ s)
index-div c s sec h = (
  mul-add-div_right (omega arith) c s ∙ rw (div-eq_of_lt h) (omega arith),
  mul-add-mod_self_right c sec s ∙ mod-eq_of_lt h,
)

module _ {n : ℕ} {g : ℕ → Bytes} {l : Link} (h : Holds n g l) (c s : ℕ) (hc : c < l.server.cyl)
    (hs : s < l.server.sec) where
  abbrev pub index : ℕ
  index = c * l.server.sec + s

  index_small : index < n
  index_small = rw (← h.disk.size) (index-lt c s l.server.cyl l.server.sec hc hs)

  pub length-sector : length (g index) ≡ 128
  length-sector = length-Holds index h index_small

  -- R: the sector is on its way behind a '1'.
  pub R-Answered : Answered n g (request b'R' (c ∷ s ∷ [])) l (b'1' ∷ g index)
  R-Answered =
      let sec = l.server.sec in
      let p = index-div c s sec hs in
      let d = h.disk in
      let b = block l.server (index / sec) (index % sec) in
      let end = at_rest (reading d index index_small) in
      record {
        end = end;
        eq =
            ap (exchange (request b'R' (c ∷ s ∷ []))) h.rest
            ∙ ap₂ (λ x y. exchange (request b'R' (x ∷ y ∷ [])) (at_rest l.server)) (sym p.0)
                (sym p.1)
            ∙ exchange_R d index index_small
            ∙ ap (λ (k : Link). (ok tt, record k { replies = b'1' ∷ b }))
                (rest_reading d index index_small)
            ∙ ap (λ (x : Bytes). (ok tt, record end { replies = b'1' ∷ x }))
                (d.sectors index index_small);
        quiet = refl;
        post = record { disk = Disk-reading d index index_small; rest = refl };
        cyl = (seek-SameDisk _ l.server).cyl;
        sec = (seek-SameDisk _ l.server).sec;
      }

  -- W with at most a block: it is stored with zeros behind, and a '1' is on its way.
  pub W-Answered :
      (buf : Bytes)
      → length buf ≤ 128
      → Answered n
          (update g index (padded buf))
          (request b'W' (c ∷ s ∷ length buf ∷ []) ++ buf)
          l
          (b'1' ∷ [])
  W-Answered buf fits =
      let sec = l.server.sec in
      let p = index-div c s sec hs in
      let d = h.disk in
      record {
        end = at_rest (after_write d index index_small buf fits);
        eq =
            ap (exchange (request b'W' (c ∷ s ∷ length buf ∷ []) ++ buf)) h.rest
            ∙ ap₂
                (λ x y. exchange (request b'W' (x ∷ y ∷ length buf ∷ []) ++ buf) (at_rest l.server))
                (sym p.0) (sym p.1)
            ∙ exchange_W d index index_small buf fits
            ∙ ap (λ (k : Link). (ok tt, record k { replies = b'1' ∷ [] }))
                (rest_written d index index_small buf fits);
        quiet = refl;
        post = record { disk = Disk-written d index index_small buf fits; rest = refl };
        cyl = (written d index index_small buf fits).2.cyl;
        sec = (written d index index_small buf fits).2.sec;
      }

  -- W with a whole block.
  pub block-Answered :
      (buf : Bytes)
      → length buf ≡ 128
      → Answered n (update g index buf) (request b'W' (c ∷ s ∷ blksz ∷ []) ++ buf) l (b'1' ∷ [])
  block-Answered buf full =
      let a = W-Answered buf (omega arith) in
      record {
        end = a.end;
        eq = ap (λ k. exchange (request b'W' (c ∷ s ∷ k ∷ []) ++ buf) l) (sym full) ∙ a.eq;
        quiet = a.quiet;
        post = subst (λ b. Holds n (update g index b) a.end) (padded_full buf full) a.post;
        cyl = a.cyl;
        sec = a.sec;
      }
