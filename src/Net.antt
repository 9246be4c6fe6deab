-- ===== src/Net.antt =====
-- A connected socket as a program sees it through write_all, read_exact and readline: bytes to be
-- read, bytes written, and how long the peer takes what is written.
-- `Net.Syscalls` has the loops over `send` and `recv` that stand behind these.
pub mod Payload
pub mod Dial
pub mod Syscalls
pub mod Tests
use cs4440proj3_final.Prelude.{
  ℕ, zero, suc, ◌-◌, Bool, true, false, Option, none, some, [], ◌∷◌, ◌++◌, Bytes, length, take,
  drop, leb, ◌==◌, if◌then◌else◌,
}
use cs4440proj3_final.Text.{newline}

-- `room` is how many more bytes `send` takes before it fails; `none`: it never fails.
pub record Conn : Type 0 where
  pub input : Bytes
  pub output : Bytes
  pub room : Option ℕ

-- A connection on which the peer has sent `bytes`, and keeps reading.
abbrev pub conn_of : Bytes → Conn
conn_of bytes = record { input = bytes; output = []; room = none }

-- `true`: all bytes were taken. `false` is the result -1; what `send` took before has gone out.
unfoldable pub write_all : Bytes → Conn → Bool × Conn
write_all bytes c = elim c.room [
  | none ↦ (true, record c { output = c.output ++ bytes })
  | some k ↦
      if leb (length bytes) k
      then (true, record c { output = c.output ++ bytes; room = some (k - length bytes) })
      else (false, record c { output = c.output ++ take k bytes; room = some 0 })
]

-- `some`: exactly `n` bytes. `none`: the stream ended before, and what there was is gone.
unfoldable pub read_exact : ℕ → Conn → Option Bytes × Conn
read_exact n c =
    if leb n (length c.input)
    then (some (take n c.input), record c { input = drop n c.input })
    else (none, record c { input = [] })

-- Up to `room` bytes, through the first newline.
unfoldable pub line_of : ℕ → Bytes → Bytes × Bytes
line_of zero s = ([], s)
line_of (suc room) [] = ([], [])
line_of (suc room) (c ∷ s) =
    let (line, rest) = line_of room s in if c == newline then (c ∷ [], s) else (c ∷ line, rest)

-- `max` is the size of the buffer, its last byte kept for the NUL. An empty line is the end.
unfoldable pub readline : ℕ → Conn → Bytes × Conn
unfolding line_of
readline max c = let (line, rest) = line_of (max - 1) c.input in (line, record c { input = rest })
