-- ===== src/Disk/Bounds.antt =====
-- Where blocks lie in the image: in range, apart from one another, with no wrap of size_t.
use native.Mathlib.Decide.{dec_lt}
use cs4440proj3_final.Prelude.{
  false, Bool, Option, none, ◌∙◌, ap, ℕ, zero, suc, ◌+◌, ◌-◌, ◌*◌, ◌%◌, ◌^◌, ◌≤◌, ◌<◌, ◌≡◌, ◌≢◌,
  ◌⊎◌, true, some, Bytes, arith, length, length-append, length-take, length-replicate, take,
  replicate, inl, inr,
}
use cs4440proj3_final.Prelude.Int.{ℤ, pos, negsuc}
use cs4440proj3_final.Disk.{
  Server, size_mod, blk_ptr, validate_cs, exits, serves, total_bytes, map_file, boot, resize,
}

-- The state that main sets up and every handler keeps.
pub record IsSound (srv : Server) : Type 0 where
  pub fits : srv.cyl * srv.sec * 128 < 2 ^ 64
  pub mapped : length srv.image ≡ srv.cyl * srv.sec * 128
  pub sectors : 0 < srv.sec
  pub cylinders : 0 < srv.cyl

-- the coordinates that validate_cs lets through
pub data Valid (srv : Server) : ℤ → ℤ → Type 0 where
  valid : {c s : ℕ} → c < srv.cyl → s < srv.sec → Valid srv (pos c) (pos s)

validate_cs→Valid : (srv : Server) (c s : ℤ) → validate_cs srv c s ≡ true → Valid srv c s
unfolding validate_cs
validate_cs→Valid srv (pos c) (pos s) h = valid (ground arith) (ground arith)
validate_cs→Valid srv (pos c) (negsuc s) h = ground arith
validate_cs→Valid srv (negsuc c) s h = ground arith

pub Valid→validate_cs : {srv : Server} {c s : ℤ} → Valid srv c s → validate_cs srv c s ≡ true
unfolding validate_cs
Valid→validate_cs (valid hc hs) = ground arith

-- the index of a valid block is below the number of blocks
pub index-lt : (c s cyl sec : ℕ) → c < cyl → s < sec → c * sec + s < cyl * sec
index-lt c s cyl sec hc hs = grind arith

-- a factor of a positive product
le_mul : (c sec : ℕ) → 0 < sec → c ≤ c * sec
le_mul c sec h = grind arith

-- On a sound server and valid coordinates no size_t operation of blk_ptr wraps, and the block lies
-- inside the mapped file.
pub blk_ptr_in_bounds :
    {srv : Server} (c s : ℕ)
    → IsSound srv
    → c < srv.cyl
    → s < srv.sec
    → (blk_ptr srv (pos c) (pos s) ≡ (c * srv.sec + s) * 128)
      × (blk_ptr srv (pos c) (pos s) + 128 ≤ length srv.image)
unfolding blk_ptr
blk_ptr_in_bounds {srv} c s v hc hs =
    let below = index-lt c s srv.cyl srv.sec hc hs in
    let factor = le_mul c srv.sec v.sectors in
    let small_c : c % size_mod ≡ c = omega arith in
    let small_s : s % size_mod ≡ s = omega arith in rw (small_c, small_s) (omega arith)

-- On a sound server two different valid blocks do not overlap.
pub blk_ptr_apart :
    {srv : Server} (c s c' s' : ℕ)
    → IsSound srv
    → c < srv.cyl
    → s < srv.sec
    → c' < srv.cyl
    → s' < srv.sec
    → (c ≢ c') ⊎ (s ≢ s')
    → (blk_ptr srv (pos c) (pos s) + 128 ≤ blk_ptr srv (pos c') (pos s'))
      ⊎ (blk_ptr srv (pos c') (pos s') + 128 ≤ blk_ptr srv (pos c) (pos s))
blk_ptr_apart {srv} c s c' s' v hc hs hc' hs' ne =
    let here = (blk_ptr_in_bounds c s v hc hs).0 in
    let there = (blk_ptr_in_bounds c' s' v hc' hs').0 in
    elim (dec_lt c c') [
      | yes p ↦ inl (omega (arith, here, there, index-lt c s c' srv.sec p hs))
      | no p ↦ elim (dec_lt c' c) [
        | yes q ↦ inr (omega (arith, here, there, index-lt c' s' c srv.sec q hs'))
        | no q ↦
            let same : c ≡ c' = omega arith in
            omega (arith, here, there, ap (λ (k : ℕ). k * srv.sec) same)
      ]
    ]

length-resize : (n : ℕ) (file : Bytes) → length (resize n file) ≡ n
unfolding resize
length-resize n file = omega (
  arith,
  length-append (take n file) (replicate (n - length file) 0),
  length-take n file,
  length-replicate {A = ℕ} (n - length file) 0,
)

-- what there is when main gets to serving, whatever the sizes are
record Started (c s : ℤ) (cut placed : Bool) (srv : Server) : Type 0 where
  cyl : c ≡ pos srv.cyl
  sec : s ≡ pos srv.sec
  cylinders : 0 < srv.cyl
  sectors : 0 < srv.sec
  was_cut : cut ≡ true
  was_placed : placed ≡ true
  mapped : length srv.image ≡ total_bytes srv.cyl srv.sec

absurd_exit : {A : Type 0} (k : ℕ) (srv : Server) → exits k ≡ serves srv → A
absurd_exit k srv e = ground (arith, e)

map_file-Started :
    (c s : ℕ) (track : ℤ) (file : Bytes) (cut placed : Bool) (srv : Server)
    → 0 < c
    → 0 < s
    → map_file c s track file cut placed ≡ serves srv
    → Started (pos c) (pos s) cut placed srv
unfolding map_file
map_file-Started c s track file false placed srv hc hs e = absurd_exit 1 srv e
map_file-Started c s track file true false srv hc hs e = absurd_exit 1 srv e
map_file-Started c s track file true true srv hc hs e =
    ground (arith, e, length-resize (total_bytes c s) file)

boot-Started :
    (c s track : ℤ) (opened : Option Bytes) (cut placed : Bool) (srv : Server)
    → boot c s track opened cut placed ≡ serves srv
    → Started c s cut placed srv
unfolding boot
boot-Started (pos (suc c)) (pos (suc s)) track (some file) cut placed srv e =
    map_file-Started (suc c) (suc s) track file cut placed srv (omega arith) (omega arith) e
boot-Started (pos (suc c)) (pos (suc s)) track none cut placed srv e = absurd_exit 1 srv e
boot-Started (pos (suc c)) (pos zero) track opened cut placed srv e = absurd_exit 2 srv e
boot-Started (pos (suc c)) (negsuc s) track opened cut placed srv e = absurd_exit 2 srv e
boot-Started (pos zero) s track opened cut placed srv e = absurd_exit 2 srv e
boot-Started (negsuc c) s track opened cut placed srv e = absurd_exit 2 srv e

-- If main gets to serving and the size of the disk, cylinders times sectors times 128, is below 2^64,
-- the server is sound, its sizes are positive and as many bytes are mapped as the disk has, whatever
-- the backing file held; the sizes are the arguments, and ftruncate and mmap have succeeded.
pub boot-IsSound :
    (c s track : ℤ) (opened : Option Bytes) (cut placed : Bool) (srv : Server)
    → boot c s track opened cut placed ≡ serves srv
    → srv.cyl * srv.sec * 128 < 2 ^ 64
    → IsSound srv × (c ≡ pos srv.cyl) × (s ≡ pos srv.sec) × (cut ≡ true) × (placed ≡ true)
unfolding total_bytes
boot-IsSound c s track opened cut placed srv e fits =
    let b = boot-Started c s track opened cut placed srv e in
    (
      record {
        fits = fits;
        mapped = b.mapped ∙ omega arith;
        sectors = b.sectors;
        cylinders = b.cylinders;
      },
      b.cyl,
      b.sec,
      b.was_cut,
      b.was_placed,
    )

-- If main gets to serving and the size of the disk is 2^64 or more, main's product has wrapped, and the
-- mapped file is smaller than the disk that validate_cs lets clients use.
pub boot-wraps :
    (c s track : ℤ) (opened : Option Bytes) (cut placed : Bool) (srv : Server)
    → boot c s track opened cut placed ≡ serves srv
    → 2 ^ 64 ≤ srv.cyl * srv.sec * 128
    → length srv.image < srv.cyl * srv.sec * 128
unfolding total_bytes
boot-wraps c s track opened cut placed srv e big =
    let b = boot-Started c s track opened cut placed srv e in omega (arith, b.mapped)
