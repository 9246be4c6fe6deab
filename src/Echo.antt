-- ===== src/Echo.antt =====
-- server.c: the string-reversing server. A client's thread receives once, reverses what it got and
-- sends it back.
pub mod Reverse
pub mod Reversed
pub mod Client
pub mod Tests
use cs4440proj3_final.Prelude.{
  ℕ, zero, suc, ◌+◌, ◌-◌, Bool, true, false, List, [], ◌∷◌, ◌++◌, Bytes, length, take, set, get_or,
  ltb, min, ◌==◌, if◌then◌else◌,
}
use cs4440proj3_final.Text.{newline, c_string}
use cs4440proj3_final.Net.Syscalls.{Send, Outcome, Recv, chunk}
use cs4440proj3_final.Net.Dial.{send_all}

-- The loop of reverse_inplace on fuel; `i` and `j` approach each other.
unfoldable pub swap_loop : ℕ → ℕ → ℕ → Bytes → Bytes
swap_loop zero i j s = s
swap_loop (suc fuel) i j s =
    let t : ℕ = get_or s i 0 in
    let rest = swap_loop fuel (i + 1) (j - 1) (set (set s i (get_or s j 0)) j t) in
    if ltb i j then rest else s

-- With n = 0 the index n - 1 is negative in C and 0 here: the loop ends at once either way.
unfoldable pub reverse_inplace : Bytes → ℕ → Bytes
reverse_inplace s n = swap_loop n 0 (n - 1) s

-- the length of what was received, without a newline at its end
unfoldable pub strip_newline : Bytes → ℕ
strip_newline buf = if get_or buf (length buf - 1) 0 == newline then length buf - 1 else length buf

-- BUF_SIZE
abbrev pub buf_size : ℕ
buf_size = 4096

-- The line of the bytes in the buffer, reversed, as a C string: it ends before the first NUL. strncat
-- adds the newline where the buffer has room.
unfoldable pub turned : Bytes → Bytes
turned buf =
    let out = c_string (reverse_inplace (take (strip_newline buf) buf) (strip_newline buf)) in
    out ++ take (buf_size - length out - 1) (newline ∷ [])

-- What thread_main sends back for the bytes of its one recv; nothing if there are none.
unfoldable pub reply : Bytes → Bytes
unfolding turned
reply [] = []
reply (c ∷ received) = turned (c ∷ received)

-- thread_main after its sleep: one recv of at most 4095 bytes, and the sending of the reply, which
-- ends also where send takes nothing or is interrupted. The socket is closed in every case.
unfoldable pub thread_main : List Recv → List Send → Bytes → Outcome × Bytes
thread_main [] sends stream = (Outcome.blocked, [])
thread_main (chunk k ∷ _) sends stream =
    send_all sends (reply (take (min (buf_size - 1) (suc k)) stream))
thread_main (Recv.interrupted ∷ _) sends stream = (Outcome.failed, [])
thread_main (Recv.failed ∷ _) sends stream = (Outcome.failed, [])
