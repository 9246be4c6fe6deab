-- ===== src/Net/Syscalls/Exact.antt =====
-- What the socket loops do, whatever pieces `send` and `recv` work in.
use mathlib.Core.List.{append_assoc}
use cs4440proj3_final.Prelude.{
  ℕ, zero, suc, ◌-◌, ◌≤◌, ◌<◌, ◌≡◌, ◌≢◌, refl, ◌⊎◌, ◌↔◌, List, [], ◌∷◌, ◌++◌, Bytes, arith, length,
  take, drop, min, length-take, length-append,
}
use cs4440proj3_final.Net.{line_of}
use cs4440proj3_final.Net.Syscalls.{
  Send, sent, Outcome, done, write_loop, Recv, chunk, full, eof, Read, read_loop, line_loop,
}

pub take-append-drop : (n : ℕ) (xs : Bytes) → take n xs ++ drop n xs ≡ xs
take-append-drop zero xs = refl
take-append-drop (suc n) [] = refl
take-append-drop (suc n) (x ∷ xs) = rw (take-append-drop n xs)

-- a first piece in front of what the rest of the loop has moved
resume :
    (k : ℕ) (moved left xs : Bytes) → moved ++ left ≡ drop k xs → (take k xs ++ moved) ++ left ≡ xs
resume k moved left xs h = rw (append_assoc, h) (take-append-drop k xs)

-- Whatever pieces send takes, what write_all's loop has sent is a first part of the buffer, and it is
-- all of the buffer exactly when the loop ends by its test.
write_loop_exact :
    (script : List Send) (buf : Bytes)
    → (unsent : Bytes) × ((write_loop script buf).1 ++ unsent ≡ buf)
      × (((write_loop script buf).0 ≡ done) ↔ (unsent ≡ []))
unfolding write_loop
write_loop_exact script [] = ([], refl, (λ _. refl, λ _. refl))
write_loop_exact [] (b ∷ rest) = (b ∷ rest, refl, (λ e. cc, λ e. cc))
write_loop_exact (sent k ∷ script) (b ∷ rest) =
    let (unsent, split, all) = write_loop_exact script (drop k (b ∷ rest)) in
    (unsent, resume k (write_loop script (drop k (b ∷ rest))).1 unsent (b ∷ rest) split, all)
write_loop_exact (Send.interrupted ∷ script) (b ∷ rest) = write_loop_exact script (b ∷ rest)
write_loop_exact (Send.failed ∷ script) (b ∷ rest) = (b ∷ rest, refl, (λ e. cc, λ e. cc))

-- calls that take at least one byte
abbrev pub sends : List Send → ℕ
sends [] = 0
sends (sent zero ∷ s) = sends s
sends (sent (suc k) ∷ s) = suc (sends s)
sends (_ ∷ s) = sends s

length-drop-le : (k : ℕ) (xs : Bytes) → length (drop k xs) ≤ length xs
length-drop-le zero xs = omega arith
length-drop-le (suc k) [] = omega arith
length-drop-le (suc k) (x ∷ xs) = omega (arith, length-drop-le k xs)

-- write_all's loop returns: as many calls of send that take a byte as there are bytes are enough.
write_loop_returns :
    (script : List Send) (buf : Bytes)
    → length buf ≤ sends script
    → (write_loop script buf).0 ≢ Outcome.blocked
unfolding write_loop
write_loop_returns script [] h = grind arith
write_loop_returns [] (b ∷ rest) h = absurd (omega arith)
write_loop_returns (sent zero ∷ script) (b ∷ rest) h = write_loop_returns script (b ∷ rest) h
write_loop_returns (sent (suc k) ∷ script) (b ∷ rest) h =
    write_loop_returns script (drop k rest) (omega (arith, length-drop-le k rest))
write_loop_returns (Send.interrupted ∷ script) (b ∷ rest) h = write_loop_returns script (b ∷ rest) h
write_loop_returns (Send.failed ∷ script) (b ∷ rest) h = grind arith

-- What a read loop may have done with `n` bytes wanted.
pub record IsExact (n : ℕ) (stream : Bytes) (r : Read) : Type 0 where
  pub split : r.got ++ r.left ≡ stream
  pub fits : length r.got ≤ n
  pub all : r.how ≡ full → length r.got ≡ n
  pub short : r.how ≢ full → length r.got < n
  pub ended : r.how ≡ eof → r.left ≡ []

-- Whatever pieces recv gives to read_exact's loop, no byte of the stream is lost or read twice; the
-- buffer is never overrun; it is full exactly when the loop ends by its test; and the end of the
-- stream is reported only when nothing is left.
pub read_loop-IsExact :
    (script : List Recv) (n : ℕ) (stream : Bytes) → IsExact n stream (read_loop script n stream)
unfolding read_loop
read_loop-IsExact script zero stream = record {
  split = refl;
  fits = omega arith;
  all = λ e. refl;
  short = λ ne. absurd (ne refl);
  ended = λ e. cc;
}
read_loop-IsExact [] (suc n) stream = record {
  split = refl;
  fits = omega arith;
  all = λ e. cc;
  short = λ ne. omega arith;
  ended = λ e. cc;
}
read_loop-IsExact (chunk k ∷ script) (suc n) [] = record {
  split = refl;
  fits = omega arith;
  all = λ e. cc;
  short = λ ne. omega arith;
  ended = λ e. refl;
}
read_loop-IsExact (chunk k ∷ script) (suc n) (b ∷ stream) =
    let size : ℕ = min (suc n) (suc k) in
    let piece = take size (b ∷ stream) in
    let rest = read_loop-IsExact script (suc n - length piece) (drop size (b ∷ stream)) in
    let fit : length piece ≤ suc n = omega (arith, length-take size (b ∷ stream)) in
    let after_piece = read_loop script (suc n - length piece) (drop size (b ∷ stream)) in
    let whole = length-append piece after_piece.got in
    record {
      split = resume size after_piece.got after_piece.left (b ∷ stream) rest.split;
      fits = omega (arith, whole, rest.fits);
      all = λ e. omega (arith, whole, rest.all e);
      short = λ ne. omega (arith, whole, rest.short ne);
      ended = rest.ended;
    }
read_loop-IsExact (Recv.interrupted ∷ script) (suc n) stream =
    read_loop-IsExact script (suc n) stream
read_loop-IsExact (Recv.failed ∷ script) (suc n) stream = record {
  split = refl;
  fits = omega arith;
  all = λ e. cc;
  short = λ ne. omega arith;
  ended = λ e. cc;
}

-- readline returns the line that stands at the front of the stream, and leaves what is behind it.
line_loop_exact :
    (script : List Recv) (room : ℕ) (stream : Bytes)
    → ((line_loop script room stream).how ≡ full) ⊎ ((line_loop script room stream).how ≡ eof)
    → ((line_loop script room stream).got, (line_loop script room stream).left)
      ≡ line_of room stream
unfolding line_loop line_of
line_loop_exact script zero stream h = refl
line_loop_exact [] (suc room) stream h = ground arith
line_loop_exact (chunk k ∷ script) (suc room) [] h = refl
line_loop_exact (chunk k ∷ script) (suc room) (c ∷ stream) h =
    ground (arith, line_loop_exact script room stream)
line_loop_exact (Recv.interrupted ∷ script) (suc room) stream h =
    line_loop_exact script (suc room) stream h
line_loop_exact (Recv.failed ∷ script) (suc room) stream h = ground arith
