-- ===== src/Clients/Rand.antt =====
-- main of disk_rand.c behind the connection: the query for the geometry, and the random requests. The
-- numbers that rand returns are given; the terminal is the list of the characters written to stdout.
pub mod Steady
pub mod Whole
use cs4440proj3_final.Prelude.{
  ℕ, zero, suc, ◌+◌, ◌-◌, ◌*◌, ◌%◌, Bool, true, false, not, ◌&&◌, Option, none, some, List, [], ◌∷◌,
  ◌++◌, Bytes, length, get_or, ltb, ◌==◌, if◌then◌else◌,
}
use cs4440proj3_final.Prelude.Int.{ℤ, pos}
use cs4440proj3_final.Text.{newline, request}
use cs4440proj3_final.Net.{line_of}
use cs4440proj3_final.Disk.Serve.{scan_longs}
use cs4440proj3_final.Fs.Exec.{Res, ok, io, fault, waits, Exec, pure, raise, ◌>>=◌, ◌>>◌}
use cs4440proj3_final.Fs.Link.{Link, has_newline, blksz, exchange, receive}

-- The connection, how often rand has been called, and what stands on stdout.
pub record Rand : Type 0 where
  pub link : Link
  pub calls : ℕ
  pub out : Bytes

abbrev pub on_link : {A : Type 0} → Exec Link A → Exec Rand A
on_link m s = let (r, l) = m s.link in (r, record s { link = l })

-- MAXLINE
abbrev pub max_line : ℕ
max_line = 256

-- readline; an empty line is the end of the stream
unfoldable pub receive_line : Exec Link Bytes
receive_line l =
    let (line, rest) = line_of (max_line - 1) l.replies in
    if l.alive && (not (has_newline l.replies) && ltb (length line) (max_line - 1))
    then (waits, l)
    else if length line == 0
    then (io, l)
    else (ok line, record l { replies = rest })

-- what sscanf has to find in it
unfoldable pub positive_pair : Option (List ℤ) → Res (ℕ × ℕ)
positive_pair (some (pos (suc c) ∷ pos (suc s) ∷ [])) = ok (suc c, suc s)
positive_pair _ = io

unfoldable pub query : Exec Link (ℕ × ℕ)
query = do
  exchange (request b'I' [])
  line ← receive_line
  raise (positive_pair (scan_longs 2 line))

unfoldable pub putchar : ℕ → Exec Rand (Unit {0})
putchar c s = (ok tt, record s { out = s.out ++ (c ∷ []) })

-- `rands` gives what the calls of rand return.
module _ (rands : ℕ → ℕ) where
  unfoldable pub rand : Exec Rand ℕ
  rand s = (ok (rands s.calls), record s { calls = suc s.calls })

  -- `n` bytes of rand() & 0xff
  unfoldable pub random_bytes : ℕ → Exec Rand Bytes
  random_bytes zero = pure []
  random_bytes (suc n) = do b ← rand; bs ← random_bytes n; pure (b % 256 ∷ bs)

  -- The status of a W is read, and not looked at.
  unfoldable pub random_write : ℕ → ℕ → Exec Rand (Unit {0})
  random_write c s = do
    buf ← random_bytes blksz
    on_link (exchange (request b'W' (c ∷ s ∷ blksz ∷ []) ++ buf))
    on_link (receive 1)
    putchar b'w'

-- The block behind a '1' is read and dropped.
unfoldable pub discard : Bytes → Exec Link (Unit {0})
discard code = if get_or code 0 0 == b'1' then (do receive blksz; pure tt) else pure tt

unfoldable pub random_read : ℕ → ℕ → Exec Rand (Unit {0})
random_read c s = do
  on_link (exchange (request b'R' (c ∷ s ∷ [])))
  code ← on_link (receive 1)
  on_link (discard code)
  putchar b'r'

-- a newline behind every 64 requests
unfoldable pub tidy : ℕ → Exec Rand (Unit {0})
tidy i = if (i + 1) % 64 == 0 then putchar newline else pure tt

-- The newline behind the loop, which a failure leaves.
unfoldable pub last_line : Res (Unit {0}) × Rand → Res ℕ × Rand
last_line (ok x, s) = (ok 0, (putchar newline s).1)
last_line (io, s) = (ok 0, (putchar newline s).1)
last_line (fault, s) = (fault, s)
last_line (waits, s) = (waits, s)

module _ (rands : ℕ → ℕ) where
  unfoldable pub one_request : ℕ → ℕ → Exec Rand (Unit {0})
  one_request cyl sec = do
    c ← rand rands
    s ← rand rands
    w ← rand rands
    if w % 2 == 1 then random_write rands (c % cyl) (s % sec) else random_read (c % cyl) (s % sec)

  -- `n` requests from number `i` on; a failure leaves the loop.
  unfoldable pub requests : ℕ → ℕ → ℕ → ℕ → Exec Rand (Unit {0})
  requests cyl sec zero i = pure tt
  requests cyl sec (suc n) i = do one_request cyl sec; tidy i; requests cyl sec n (i + 1)

  -- The exit code, and the state at the end: 1 without a usable geometry, else 0, also where a request
  -- has failed; or there is no end.
  unfoldable pub after_query : ℕ → Res (ℕ × ℕ) × Link → Res ℕ × Rand
  after_query n (ok (cyl, sec), l) =
      last_line (requests cyl sec n 0 (record { link = l; calls = 0; out = [] }))
  after_query n (io, l) = (ok 1, record { link = l; calls = 0; out = [] })
  after_query n (fault, l) = (fault, record { link = l; calls = 0; out = [] })
  after_query n (waits, l) = (waits, record { link = l; calls = 0; out = [] })

  unfoldable pub disk_rand : ℕ → Link → Res ℕ × Rand
  disk_rand n l = after_query n (query l)
