-- ===== src/Disk/Blocks.antt =====
-- The handlers of disk_server.c as operations on blocks.
use cs4440proj3_final.Prelude.{
  ℕ, ◌-◌, ◌≤◌, ◌<◌, ◌≡◌, ◌≢◌, ◌⊎◌, true, false, none, Bytes, arith, length, length-append,
  length-take, length-drop, length-replicate, take, drop, replicate, inl, inr, refl, [], ◌∷◌, ◌++◌,
  slice, splice, length-splice, slice-splice_self, slice-splice_before, slice-splice_after, ap, ◌∙◌,
  sym,
}
use cs4440proj3_final.Prelude.Int.{ℤ, pos}
use cs4440proj3_final.Text.{print_dec, newline, space}
use cs4440proj3_final.Net.{Conn, write_all, read_exact}
use cs4440proj3_final.Disk.{
  Server, Session, blksz, blk_ptr, validate_cs, sleep_tracks, seek, handle_R, handle_W, handle_I,
  store_block, padded, fits_block,
}
use cs4440proj3_final.Disk.Bounds.{
  IsSound, valid, Valid→validate_cs, blk_ptr_in_bounds, blk_ptr_apart,
}

-- The contents of the block at cylinder `c`, sector `s`.
unfoldable pub block : Server → ℕ → ℕ → Bytes
block srv c s = slice (blk_ptr srv (pos c) (pos s)) blksz srv.image

pub length-block :
    {srv : Server} (c s : ℕ)
    → IsSound srv
    → c < srv.cyl
    → s < srv.sec
    → length (block srv c s) ≡ 128
unfolding block
length-block {srv} c s v hc hs =
    let off = blk_ptr srv (pos c) (pos s) in
    omega (
      arith,
      length-take 128 (drop off srv.image),
      length-drop off srv.image,
      (blk_ptr_in_bounds c s v hc hs).1,
    )

-- What a seek changes: the arm, and what has been slept.
pub record SameDisk (srv srv' : Server) : Type 0 where
  pub cyl : srv'.cyl ≡ srv.cyl
  pub sec : srv'.sec ≡ srv.sec
  pub image : srv'.image ≡ srv.image

pub seek-SameDisk : (c : ℤ) (srv : Server) → SameDisk srv (seek c srv)
unfolding seek sleep_tracks
seek-SameDisk c srv = ground arith

pub SameDisk-IsSound : {srv srv' : Server} → SameDisk srv srv' → IsSound srv → IsSound srv'
SameDisk-IsSound same v = ground arith

pub block-SameDisk :
    {srv srv' : Server} → SameDisk srv srv' → (c s : ℕ) → block srv' c s ≡ block srv c s
unfolding block blk_ptr
block-SameDisk same c s = rw (same.image, same.sec)

length-padded : (bytes : Bytes) → length bytes ≤ 128 → length (padded bytes) ≡ 128
length-padded bytes h = omega (
  arith,
  length-append bytes (replicate (blksz - length bytes) 0),
  length-replicate {A = ℕ} (blksz - length bytes) 0,
)

abbrev pub stored : Server → ℕ → ℕ → Bytes → Server
stored srv c s buf = record srv { image = splice (blk_ptr srv (pos c) (pos s)) buf srv.image }

stored-IsSound : {srv : Server} (c s : ℕ) (buf : Bytes) → IsSound srv → IsSound (stored srv c s buf)
stored-IsSound {srv} c s buf v =
    ground (arith, length-splice (blk_ptr srv (pos c) (pos s)) buf srv.image)

ptr-stored :
    (srv : Server) (c s : ℕ) (buf : Bytes) (c' s' : ℤ)
    → blk_ptr (stored srv c s buf) c' s' ≡ blk_ptr srv c' s'
unfolding blk_ptr
ptr-stored srv c s buf c' s' = refl

-- What is stored in a block is what the block then holds.
block-stored :
    {srv : Server} (c s : ℕ) (buf : Bytes)
    → IsSound srv
    → c < srv.cyl
    → s < srv.sec
    → length buf ≡ 128
    → block (stored srv c s buf) c s ≡ buf
unfolding block
block-stored {srv} c s buf v hc hs size =
    let off = blk_ptr srv (pos c) (pos s) in
    rw ptr-stored (
      ap (λ n. slice off n (splice off buf srv.image)) (sym size)
      ∙ slice-splice_self off buf srv.image (omega (arith, (blk_ptr_in_bounds c s v hc hs).1)))

-- Every other block keeps its contents.
block-stored_ne :
    {srv : Server} (c s c' s' : ℕ) (buf : Bytes)
    → IsSound srv
    → c < srv.cyl
    → s < srv.sec
    → c' < srv.cyl
    → s' < srv.sec
    → length buf ≡ 128
    → (c ≢ c') ⊎ (s ≢ s')
    → block (stored srv c s buf) c' s' ≡ block srv c' s'
unfolding block
block-stored_ne {srv} c s c' s' buf v hc hs hc' hs' size ne =
    let off = blk_ptr srv (pos c) (pos s) in
    let off' = blk_ptr srv (pos c') (pos s') in
    rw ptr-stored (elim (blk_ptr_apart c s c' s' v hc hs hc' hs' ne) [
      | inl below ↦ slice-splice_after off buf srv.image off' 128 (omega arith)
      | inr above ↦ slice-splice_before off buf srv.image off' 128 above
    ])

-- A connection that holds what the client sent and that takes every reply.
abbrev open_conn : Bytes → Bytes → Conn
open_conn input output = record { input = input; output = output; room = none }

abbrev pub at : Server → Bytes → Bytes → Session
at srv input output = record { server = srv; conn = open_conn input output }

module _ (srv : Server) (input output : Bytes) where
  -- R with a valid sector: a '1' and the sector's contents are sent, the arm moves, and nothing is
  -- taken from the stream.
  pub handle_R_lem :
      (c s : ℕ)
      → c < srv.cyl
      → s < srv.sec
      → handle_R (pos c) (pos s) (at srv input output)
        ≡ (true, at (seek (pos c) srv) input (output ++ (b'1' ∷ []) ++ block srv c s))
  unfolding handle_R write_all block
  handle_R_lem c s hc hs = rw (Valid→validate_cs {srv = srv} (valid hc hs)) (
      ap (λ b. (true, at (seek (pos c) srv) input (output ++ (b'1' ∷ []) ++ b)))
        (block-SameDisk (seek-SameDisk (pos c) srv) c s))

  pub handle_I_lem : handle_I (at srv input output) ≡ (
    true,
    at srv input (output ++ (print_dec srv.cyl ++ (space ∷ (print_dec srv.sec ++ (newline ∷ []))))),
  )
  unfolding handle_I write_all
  handle_I_lem = refl

  handle_W_lem :
      (c s l : ℕ)
      → c < srv.cyl
      → s < srv.sec
      → l ≤ 128
      → l ≤ length input
      → handle_W (pos c) (pos s) (pos l) (at srv input output) ≡ (
        true,
        at
            (stored (seek (pos c) srv) c s (padded (take l input)))
            (drop l input)
            (output ++ (b'1' ∷ [])),
      )
  unfolding handle_W store_block write_all read_exact
  handle_W_lem c s l hc hs hl have = rw (Valid→validate_cs {srv = srv} (valid hc hs)) (ground arith)

-- What a write leaves behind: its block, every other block, and the soundness of the server.
pub record Wrote (srv : Server) (c s : ℕ) (buf : Bytes) (srv' : Server) : Type 0 where
  pub sound : IsSound srv'
  pub cyl : srv'.cyl ≡ srv.cyl
  pub sec : srv'.sec ≡ srv.sec
  pub here : block srv' c s ≡ buf
  pub elsewhere :
      (c' s' : ℕ)
      → c' < srv.cyl
      → s' < srv.sec
      → (c ≢ c') ⊎ (s ≢ s')
      → block srv' c' s' ≡ block srv c' s'

pub handle_W_writes :
    (srv : Server) (input output : Bytes) (c s l : ℕ)
    → IsSound srv
    → c < srv.cyl
    → s < srv.sec
    → l ≤ 128
    → l ≤ length input
    → (srv' : Server) × (handle_W (pos c) (pos s) (pos l) (at srv input output)
        ≡ (true, at srv' (drop l input) (output ++ (b'1' ∷ []))))
      × Wrote srv c s (padded (take l input)) srv'
handle_W_writes srv input output c s l v hc hs hl have = (
  stored moved c s buf,
  handle_W_lem srv input output c s l hc hs hl have,
  record {
    sound = stored-IsSound c s buf v';
    cyl = same.cyl;
    sec = same.sec;
    here = block-stored c s buf v' hc' hs' size;
    elsewhere = λ c' s' p q ne.
        block-stored_ne c s c' s' buf v' hc' hs' (rw same.cyl p) (rw same.sec q) size ne
        ∙ block-SameDisk same c' s';
  },
)
  where
    moved : Server
    moved = seek (pos c) srv

    buf : Bytes
    buf = padded (take l input)

    same : SameDisk srv moved
    same = seek-SameDisk (pos c) srv

    v' : IsSound moved
    v' = SameDisk-IsSound same v

    hc' : c < moved.cyl
    hc' = rw same.cyl hc

    hs' : s < moved.sec
    hs' = rw same.sec hs

    size : length buf ≡ 128
    size = length-padded (take l input) (omega (arith, length-take l input))

-- W with a sector or a length out of range: the reply is '0', and the disk, its arm and what follows
-- the command line in the stream are untouched, so the bytes that the client sends behind the line
-- are still to be read, as command lines.
pub handle_W_refuses :
    (srv : Server) (input output : Bytes) (c s l : ℤ)
    → (validate_cs srv c s ≡ false) ⊎ (fits_block l ≡ false)
    → handle_W c s l (at srv input output) ≡ (true, at srv input (output ++ (b'0' ∷ [])))
unfolding handle_W write_all
handle_W_refuses srv input output c s l h = ground arith
