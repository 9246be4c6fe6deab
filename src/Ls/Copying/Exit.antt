-- ===== src/Ls/Copying/Exit.antt =====
-- What ls_client.c has done when it ends.
use mathlib.Core.Path.{subst}
use cs4440proj3_final.Prelude.{
  suc, ◌+◌, ◌≤◌, ◌<◌, ◌≡◌, refl, ap, ◌∙◌, Bool, true, false, List, [], ◌∷◌, ◌++◌, Bytes, arith,
  length, take, drop, min, All, length-drop, if◌then◌else◌,
}
use cs4440proj3_final.Net.Syscalls.{Outcome, Recv, chunk, Got, eof}
use cs4440proj3_final.Net.Syscalls.Exact.{take-append-drop}
use cs4440proj3_final.Net.Payload.{buf_size, joined, payload}
use cs4440proj3_final.Net.Dial.{
  System, Ending, exit, Run, send_all, sent_then, dial, is_positive, atoi, gives_up,
}
use cs4440proj3_final.Net.Dial
use cs4440proj3_final.Net.Dial.Sending.{Takes, send_all-done, send_all-ends}
use cs4440proj3_final.Ls.{program, max_tokens, argv_exec}
use cs4440proj3_final.Ls.Splitting.{IsArg, argv_exec-payload}
use cs4440proj3_final.Ls.Copying.{copy_loop, copied, receive, ls_client}

-- Everything is printed if the end of the stream was seen.
copy_loop-eof :
    (script : List Recv) (stream : Bytes)
    → (copy_loop script stream).how ≡ eof
    → (copy_loop script stream).got ≡ stream
unfolding copy_loop
copy_loop-eof [] stream h = cc
copy_loop-eof (chunk k ∷ script) [] h = refl
copy_loop-eof (chunk k ∷ script) (b ∷ stream) h =
    ap (λ l. take (min buf_size (suc k)) (b ∷ stream) ++ l)
      (copy_loop-eof script (drop (min buf_size (suc k)) (b ∷ stream)) h)
    ∙ take-append-drop (min buf_size (suc k)) (b ∷ stream)
copy_loop-eof (Recv.interrupted ∷ script) stream h = cc
copy_loop-eof (Recv.failed ∷ script) stream h = cc

-- a recv that gives what there is
abbrev Gives : Recv → Type 0
Gives (chunk k) = Unit
Gives _ = ⊥

copy_loop-ends :
    (script : List Recv) (stream : Bytes)
    → All Gives script
    → length stream < length script
    → (copy_loop script stream).how ≡ eof
unfolding copy_loop
copy_loop-ends [] stream g h = absurd (omega arith)
copy_loop-ends (chunk k ∷ script) [] g h = refl
copy_loop-ends (chunk k ∷ script) (b ∷ stream) g h =
    copy_loop-ends script (drop (min buf_size (suc k)) (b ∷ stream)) g.1
      (omega (arith, length-drop (min buf_size (suc k)) (b ∷ stream)))
copy_loop-ends (Recv.interrupted ∷ script) stream g h = absurd g.0
copy_loop-ends (Recv.failed ∷ script) stream g h = absurd g.0

-- What a run that exits with 0 has done.
abbrev Complete : Bytes → Bytes → Run → Type 0
Complete line stream r = r.ending ≡ exit 0 → (r.sent ≡ line) × (r.printed ≡ stream)

copied-Complete :
    (out : Bytes) (how : Got) (got stream : Bytes)
    → (how ≡ eof → got ≡ stream)
    → Complete out stream (copied out how got)
unfolding copied
copied-Complete out Got.eof got stream h e = (refl, h refl)
copied-Complete out Got.full got stream h e = ground arith
copied-Complete out Got.failed got stream h e = ground arith
copied-Complete out Got.blocked got stream h e = cc

sent_then-Complete :
    (sys : System) (o : Outcome) (out line : Bytes)
    → (o ≡ Outcome.done → out ≡ line)
    → Complete line sys.stream (sent_then receive (o, out) sys)
unfolding sent_then
sent_then-Complete sys Outcome.done out line h e =
    subst (λ l. Complete l sys.stream (sent_then receive (Outcome.done, out) sys)) (h refl)
      (copied-Complete out _ _ sys.stream (copy_loop-eof sys.recvs sys.stream)) e
sent_then-Complete sys Outcome.failed out line h e = ground arith
sent_then-Complete sys Outcome.blocked out line h e = cc

Complete-if :
    (b : Bool) (line stream : Bytes) (r : Run)
    → Complete line stream r
    → Complete line stream (if b then r else gives_up)
Complete-if true line stream r h = h
Complete-if false line stream r h = λ e. ground arith

dial-Complete : (line : Bytes) (sys : System) → Complete line sys.stream (dial receive line sys)
unfolding dial
dial-Complete line sys = Complete-if sys.socket line sys.stream _ (
    Complete-if sys.pton line sys.stream _ (
      Complete-if sys.connect line sys.stream _
        (sent_then-Complete sys _ _ line (send_all-done sys.sends line))))

-- When ls_client exits with 0, it has sent its arguments as a line and has printed everything that
-- the server sent before it closed the connection.
ls_client-Complete :
    (host port arg : Bytes) (args : List Bytes) (sys : System)
    → Complete (payload (arg ∷ args)) sys.stream (ls_client (host ∷ port ∷ arg ∷ args) sys)
unfolding ls_client Dial.main
ls_client-Complete host port arg args sys =
    Complete-if (is_positive (atoi port)) (payload (arg ∷ args)) sys.stream _
      (dial-Complete (payload (arg ∷ args)) sys)

-- When ls_client exits with 0, and none of its arguments for ls is empty or has a blank or a NUL in
-- it, there are at most 126 of them, and the line fits the buffer, then the server that receives in
-- one piece what was sent runs ls with exactly these arguments, and everything that the server sent
-- back has been printed.
pub argv_exec-ls_client :
    (host port arg : Bytes) (args : List Bytes) (sys : System)
    → (ls_client (host ∷ port ∷ arg ∷ args) sys).ending ≡ exit 0
    → All IsArg (arg ∷ args)
    → suc (length args) ≤ max_tokens
    → length (joined (arg ∷ args)) + 1 < buf_size
    → (argv_exec (ls_client (host ∷ port ∷ arg ∷ args) sys).sent ≡ program ∷ arg ∷ args)
      × ((ls_client (host ∷ port ∷ arg ∷ args) sys).printed ≡ sys.stream)
argv_exec-ls_client host port arg args sys h ok few fits =
    let both = ls_client-Complete host port arg args sys h in
    (ap argv_exec both.0 ∙ argv_exec-payload (arg ∷ args) ok (omega arith) few fits, both.1)

ls_client-exit :
    (host port arg : Bytes) (args : List Bytes) (sys : System)
    → is_positive (atoi port) ≡ true
    → (sys.socket ≡ true) × (sys.pton ≡ true) × (sys.connect ≡ true)
    → (send_all sys.sends (payload (arg ∷ args))).0 ≡ Outcome.done
    → (copy_loop sys.recvs sys.stream).how ≡ eof
    → ((ls_client (host ∷ port ∷ arg ∷ args) sys).ending ≡ exit 0)
      × ((ls_client (host ∷ port ∷ arg ∷ args) sys).sockets ≡ 0)
unfolding ls_client Dial.main dial sent_then copied
ls_client-exit host port arg args sys positive up s r =
    rw (positive, up.0, up.1, up.2) (rw (s, sent_then) (rw (r, copied) (refl, refl)))

-- An ls_client with a positive port, on a system where the connection is made, every call of send
-- takes a byte and every call of recv gives what there is: after as many calls of send as its line
-- has bytes and one call of recv more than the server has sent bytes it exits with 0 and with its
-- socket closed, and it has sent the line and printed all of these bytes.
pub ls_client-exits :
    (host port arg : Bytes) (args : List Bytes) (sys : System)
    → is_positive (atoi port) ≡ true
    → (sys.socket ≡ true) × (sys.pton ≡ true) × (sys.connect ≡ true)
    → All Takes sys.sends
    → length (payload (arg ∷ args)) ≤ length sys.sends
    → All Gives sys.recvs
    → length sys.stream < length sys.recvs
    → ls_client (host ∷ port ∷ arg ∷ args) sys
      ≡ record { ending = exit 0; sockets = 0; sent = payload (arg ∷ args); printed = sys.stream }
ls_client-exits host port arg args sys positive up takes enough gives more =
    let line = payload (arg ∷ args) in
    let ends =
      ls_client-exit host port arg args sys positive up (send_all-ends sys.sends line takes enough)
        (copy_loop-ends sys.recvs sys.stream gives more) in
    let both = ls_client-Complete host port arg args sys ends.0 in
    ground (arith, both.0, both.1, ends.0, ends.1)
