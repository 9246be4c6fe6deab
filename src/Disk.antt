-- ===== src/Disk.antt =====
-- disk_server.c: a disk of cylinders and sectors in a memory-mapped file, its arm, and the handlers
-- of the protocol. The file is the list of its bytes; the arm's position and the calls of nanosleep
-- are part of the state. `Disk.Serve` has the thread that reads command lines.
pub mod Bounds
pub mod Blocks
pub mod Kept
pub mod Arm
pub mod Serve
pub mod Tests
use cs4440proj3_final.Prelude.{
  ℕ, zero, suc, ◌+◌, ◌-◌, ◌*◌, ◌/◌, ◌%◌, ◌^◌, Bool, true, false, not, ◌&&◌, ◌||◌, Option, none,
  some, List, [], ◌∷◌, ◌++◌, Bytes, slice, splice, length, take, replicate, ltb, ◌==◌,
  if◌then◌else◌,
}
use cs4440proj3_final.Prelude.Int.{ℤ, pos, negsuc}
use cs4440proj3_final.Text.{print_dec, newline, space}
use cs4440proj3_final.Net.{Conn, write_all, read_exact}

abbrev pub blksz : ℕ
blksz = 128

-- what size_t arithmetic counts up to
abbrev pub size_mod : ℕ
size_mod = 2 ^ 64

-- struct timespec
pub record Timespec : Type 0 where
  pub tv_sec : ℕ
  pub tv_nsec : ℕ

-- The globals of the server. `cyl` and `sec` are positive from `boot` on; `naps` are the calls of
-- nanosleep, the last one first.
pub record Server : Type 0 where
  pub cyl : ℕ
  pub sec : ℕ
  pub track_us : ℤ
  pub image : Bytes
  pub head_cyl : ℤ
  pub naps : List Timespec

-- A client's thread: the shared state, and the connection.
pub record Session : Type 0 where
  pub server : Server
  pub conn : Conn

-- (size_t)c
abbrev pub to_size : ℤ → ℕ
to_size (pos n) = n % size_mod
to_size (negsuc n) = size_mod - 1 - n % size_mod

-- the offset of a block from g_base
unfoldable pub blk_ptr : Server → ℤ → ℤ → ℕ
blk_ptr srv c s = (to_size c * srv.sec % size_mod + to_size s) % size_mod * blksz % size_mod

unfoldable pub validate_cs : Server → ℤ → ℤ → Bool
validate_cs srv (pos c) (pos s) = ltb c srv.cyl && ltb s srv.sec
validate_cs srv _ _ = false

-- labs(to - from)
abbrev pub labs_diff : ℤ → ℤ → ℕ
labs_diff (pos a) (pos b) = a - b + (b - a)
labs_diff (negsuc a) (negsuc b) = a - b + (b - a)
labs_diff (pos a) (negsuc b) = a + suc b
labs_diff (negsuc a) (pos b) = suc a + b

-- the 64 bits of delta * g_track_us, a product of longs that wraps around on overflow
unfoldable pub product_bits : ℕ → ℤ → ℕ
product_bits delta (pos t) = delta * t % size_mod
product_bits delta (negsuc t) = (size_mod - delta * suc t % size_mod) % size_mod

-- a total that is not positive does not sleep
unfoldable pub delay : ℕ → ℤ → ℕ
delay delta track_us =
    let total_us : ℕ = product_bits delta track_us in if ltb total_us (2 ^ 63) then total_us else 0

pub sleep_tracks : ℤ → ℤ → Server → Server
sleep_tracks from to srv =
    let total_us : ℕ = delay (labs_diff from to) srv.track_us in
    if total_us == 0 then srv else record srv {
      naps = record { tv_sec = total_us / 1000000; tv_nsec = total_us % 1000000 * 1000 } ∷ srv.naps;
    }

-- what both handlers do with the mutex held before they touch the block
pub seek : ℤ → Server → Server
seek c srv = record (sleep_tracks srv.head_cyl c srv) { head_cyl = c }

-- A handler gives `true` for the result 0 and `false` for -1.
abbrev send_to : Bytes → Session → Bool × Session
send_to bytes s = let (ok, conn) = write_all bytes s.conn in (ok, record s { conn = conn })

pub handle_I : Session → Bool × Session
handle_I s =
    send_to (print_dec s.server.cyl ++ (space ∷ (print_dec s.server.sec ++ (newline ∷ [])))) s

pub handle_R : ℤ → ℤ → Session → Bool × Session
handle_R c sn s =
    if not (validate_cs s.server c sn)
    then send_to (b'0' ∷ []) s
    else (let moved : Session = record s { server = seek c s.server } in
        let (ok, sent) = send_to (b'1' ∷ []) moved in
        if ok
        then send_to (slice (blk_ptr moved.server c sn) blksz moved.server.image) sent
        else (false, sent))

-- `l < 0 || l > BLKSZ` does not hold
abbrev pub fits_block : ℤ → Bool
fits_block (pos l) = ltb l (blksz + 1)
fits_block (negsuc l) = false

abbrev pub nat_of : ℤ → ℕ
nat_of (pos l) = l
nat_of (negsuc l) = 0

-- the bytes read, and zeros up to the size of a block
abbrev pub padded : Bytes → Bytes
padded bytes = bytes ++ replicate (blksz - length bytes) 0

-- memcpy into the image; what would fall outside of it is dropped here, which no block of a sound server
-- does.
pub store_block : ℤ → ℤ → Bytes → Session → Bool × Session
store_block c sn buf s =
    let moved = seek c s.server in
    send_to (b'1' ∷ [])
      (record s { server = record moved { image = splice (blk_ptr moved c sn) buf moved.image } })

pub handle_W : ℤ → ℤ → ℤ → Session → Bool × Session
handle_W c sn l s =
    if not (validate_cs s.server c sn) || not (fits_block l)
    then send_to (b'0' ∷ []) s
    else (let (got, conn) = read_exact (nat_of l) s.conn in
        elim got [
          | none ↦ (false, record s { conn = conn })
          | some bytes ↦ store_block c sn (padded bytes) (record s { conn = conn })
        ])

-- ftruncate: the file is cut, or filled up with zeros
unfoldable pub resize : ℕ → Bytes → Bytes
resize n file = take n file ++ replicate (n - length file) 0

-- how main gets on before it makes its socket: an exit code, or a server
pub data Boot : Type 0 where
  exits : ℕ → Boot
  serves : Server → Boot

-- total_bytes, a size_t
unfoldable pub total_bytes : ℕ → ℕ → ℕ
total_bytes c s = c * s % size_mod * blksz % size_mod

-- The disk with the file: `cut` and `placed` are whether ftruncate and mmap are granted; mmap refuses
-- a length of 0.
unfoldable pub map_file : ℕ → ℕ → ℤ → Bytes → Bool → Bool → Boot
map_file c s track file cut placed =
    if not cut
    then exits 1
    else if not placed || total_bytes c s == 0
    then exits 1
    else serves (record {
      cyl = c;
      sec = s;
      track_us = track;
      image = resize (total_bytes c s) file;
      head_cyl = pos 0;
      naps = [];
    })

-- What main does with its arguments and the backing file, whose bytes open gives or `none`.
unfoldable pub boot : ℤ → ℤ → ℤ → Option Bytes → Bool → Bool → Boot
boot (pos (suc c)) (pos (suc s)) track (some file) cut placed =
    map_file (suc c) (suc s) track file cut placed
boot (pos (suc c)) (pos (suc s)) track none cut placed = exits 1
boot (pos (suc c)) (pos zero) track opened cut placed = exits 2
boot (pos (suc c)) (negsuc s) track opened cut placed = exits 2
boot (pos zero) s track opened cut placed = exits 2
boot (negsuc c) s track opened cut placed = exits 2
