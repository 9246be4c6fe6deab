-- ===== src/Net/Syscalls.antt =====
-- The loops of write_all, read_exact and readline over the results that `send` and `recv` give. The
-- results come as a list, the next call's first; where the list ends the call has not returned yet.
pub mod Exact
use cs4440proj3_final.Prelude.{
  ℕ, zero, suc, ◌-◌, List, [], ◌∷◌, ◌++◌, Bytes, length, take, drop, min, ◌==◌, if◌then◌else◌,
}
use cs4440proj3_final.Text.{newline}

-- What one call of `send` does: it takes some bytes, is interrupted (EINTR), or fails.
pub data Send : Type 0 where
  sent : ℕ → Send
  interrupted failed : Send

pub data Outcome : Type 0 where
  done failed blocked : Outcome

-- while (off < n) { w = send(fd, buf + off, n - off, 0); ... }; `rest` is buf + off.
-- The bytes that have gone out come back beside the outcome.
pub write_loop : List Send → Bytes → Outcome × Bytes
write_loop script [] = (Outcome.done, [])
write_loop [] (b ∷ rest) = (Outcome.blocked, [])
write_loop (sent k ∷ script) (b ∷ rest) =
    let (r, out) = write_loop script (drop k (b ∷ rest)) in (r, take k (b ∷ rest) ++ out)
write_loop (Send.interrupted ∷ script) (b ∷ rest) = write_loop script (b ∷ rest)
write_loop (Send.failed ∷ script) (b ∷ rest) = (Outcome.failed, [])

-- What one call of `recv` does: it gives at most `suc k` bytes of the stream, is interrupted, or
-- fails. At the end of the stream it returns 0.
pub data Recv : Type 0 where
  chunk : ℕ → Recv
  interrupted failed : Recv

pub data Got : Type 0 where
  full eof failed blocked : Got

-- The loop's result: how it ended, the bytes stored in the buffer, the stream that is left.
pub record Read : Type 0 where
  pub how : Got
  pub got : Bytes
  pub left : Bytes

abbrev pub after : Bytes → Read → Read
after piece r = record r { got = piece ++ r.got }

-- while (off < n) { r = recv(fd, buf + off, n - off, 0); ... }; `n` bytes are still wanted.
pub read_loop : List Recv → ℕ → Bytes → Read
read_loop script zero stream = record { how = Got.full; got = []; left = stream }
read_loop [] (suc n) stream = record { how = Got.blocked; got = []; left = stream }
read_loop (chunk k ∷ script) (suc n) [] = record { how = Got.eof; got = []; left = [] }
read_loop (chunk k ∷ script) (suc n) (b ∷ stream) =
    let piece = take (min (suc n) (suc k)) (b ∷ stream) in
    after piece (read_loop script (suc n - length piece) (drop (min (suc n) (suc k)) (b ∷ stream)))
read_loop (Recv.interrupted ∷ script) (suc n) stream = read_loop script (suc n) stream
read_loop (Recv.failed ∷ script) (suc n) stream = record {
  how = Got.failed;
  got = [];
  left = stream;
}

-- while (off + 1 < max) { r = recv(fd, &c, 1, 0); ... }; `room` is max - 1 - off. The loop is `full`
-- when the buffer is, or when the newline is in it.
pub line_loop : List Recv → ℕ → Bytes → Read
line_loop script zero stream = record { how = Got.full; got = []; left = stream }
line_loop [] (suc room) stream = record { how = Got.blocked; got = []; left = stream }
line_loop (chunk k ∷ script) (suc room) [] = record { how = Got.eof; got = []; left = [] }
line_loop (chunk k ∷ script) (suc room) (c ∷ stream) =
    let more = after (c ∷ []) (line_loop script room stream) in
    if c == newline then record { how = Got.full; got = c ∷ []; left = stream } else more
line_loop (Recv.interrupted ∷ script) (suc room) stream = line_loop script (suc room) stream
line_loop (Recv.failed ∷ script) (suc room) stream = record {
  how = Got.failed;
  got = [];
  left = stream;
}
