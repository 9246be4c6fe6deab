-- ===== src/Echo/Client/Reversing.antt =====
-- client.c and server.c together: what the user sees.
use mathlib.Core.List.{reverse}
use cs4440proj3_final.Prelude.{
  ℕ, suc, ◌+◌, ◌-◌, ◌≤◌, ◌<◌, ◌≡◌, refl, ap, ◌∙◌, true, List, [], ◌∷◌, ◌++◌, Bytes, arith, length,
  min, All, length-append,
}
use cs4440proj3_final.Text.{newline}
use cs4440proj3_final.Text.Strings.{NoNul, NoNul-append, c_string-NoNul}
use cs4440proj3_final.Net.Syscalls.{Send, Outcome, Recv, chunk}
use cs4440proj3_final.Net.Payload.{joined, payload, payload_lem, take-all, NoNul-joined}
use cs4440proj3_final.Net.Payload
use cs4440proj3_final.Net.Dial.{System, exit, Run, send_all, sent_then, dial, is_positive, atoi}
use cs4440proj3_final.Net.Dial
use cs4440proj3_final.Net.Dial.Sending.{Takes, send_all-done, send_all-ends}
use cs4440proj3_final.Echo.{buf_size, thread_main}
use cs4440proj3_final.Echo.Reversed.{reply-line, NoNul-reverse, length-reverse}
use cs4440proj3_final.Echo.Client.{receive_once, client}

-- A send loop whose calls take a byte each sends the whole buffer.
send_all_lem :
    (script : List Send) (buf : Bytes)
    → All Takes script
    → length buf ≤ length script
    → send_all script buf ≡ (Outcome.done, buf)
send_all_lem script buf t h =
    let ends = send_all-ends script buf t h in
    ap (λ (o : Outcome). (o, (send_all script buf).1)) ends
    ∙ ap (λ (b : Bytes). (Outcome.done, b)) (send_all-done script buf ends)

-- What a thread of the server sends for a line that one recv gives it.
thread_main-line :
    (s : Bytes) (k : ℕ) (rest : List Recv) (sends : List Send)
    → NoNul s
    → length s + 1 < buf_size
    → length s ≤ k
    → All Takes sends
    → length s + 1 ≤ length sends
    → thread_main (chunk k ∷ rest) sends (s ++ (newline ∷ []))
      ≡ (Outcome.done, reverse s ++ (newline ∷ []))
unfolding thread_main
thread_main-line s k rest sends h fits whole t enough =
    let size = length-append s (newline ∷ []) in
    let line = s ++ (newline ∷ []) in
    rw (take-all (min (buf_size - 1) (suc k)) line (omega (arith, size)), reply-line s h fits)
      (send_all_lem sends (reverse s ++ (newline ∷ [])) t
        (omega (arith, length-append (reverse s) (newline ∷ []), length-reverse s)))

receive_once-line :
    (out : Bytes) (j : ℕ) (rest : List Recv) (line : Bytes)
    → NoNul line
    → 0 < length line
    → length line < Payload.buf_size
    → length line ≤ suc j
    → receive_once out (chunk j ∷ rest) line
      ≡ record { ending = exit 0; sockets = 0; sent = out; printed = line }
unfolding receive_once
receive_once-line out j rest [] h some_byte fits whole = absurd (omega arith)
receive_once-line out j rest (b ∷ line) h some_byte fits whole =
    rw
      (
        take-all (min (Payload.buf_size - 1) (suc j)) (b ∷ line) (omega arith),
        c_string-NoNul (b ∷ line) h,
      )
      refl

-- The client's system while a thread of the server, with the calls `recvs` and `sends`, answers what
-- the client sends.
abbrev pub answered : List Bytes → List Recv → List Send → List Send → List Recv → System
answered words recvs sends client_sends client_recvs = record {
  socket = true;
  pton = true;
  connect = true;
  sends = client_sends;
  recvs = client_recvs;
  stream = (thread_main recvs sends (payload words)).1;
}

-- If the words with spaces between them have no NUL and at most 4094 bytes, the port is positive, the
-- connection is made, the first recv on each side gives the whole line and every call of send takes a
-- byte, then the client exits with 0 and its socket closed, and it has printed its words in reverse,
-- byte by byte, and a newline.
pub client-reverses :
    (host port arg : Bytes) (args : List Bytes) (k j : ℕ) (recvs client_recvs : List Recv)
    (sends client_sends : List Send)
    → is_positive (atoi port) ≡ true
    → All NoNul (arg ∷ args)
    → length (joined (arg ∷ args)) + 1 < buf_size
    → length (joined (arg ∷ args)) ≤ min k j
    → All Takes sends × All Takes client_sends
    → length (joined (arg ∷ args)) + 1 ≤ min (length sends) (length client_sends)
    → client
        (host ∷ port ∷ arg ∷ args)
        (answered (arg ∷ args) (chunk k ∷ recvs) sends client_sends (chunk j ∷ client_recvs))
      ≡ record {
        ending = exit 0;
        sockets = 0;
        sent = payload (arg ∷ args);
        printed = reverse (joined (arg ∷ args)) ++ (newline ∷ []);
      }
unfolding client Dial.main dial sent_then
client-reverses host port arg args k j recvs client_recvs sends client_sends pos h fits whole t
      enough =
    let s = joined (arg ∷ args) in
    let clean = NoNul-joined (arg ∷ args) h in
    let line : payload (arg ∷ args) ≡ s ++ (newline ∷ []) =
      payload_lem (arg ∷ args) (omega arith) in
    let size = length-append s (newline ∷ []) in
    let back = length-append (reverse s) (newline ∷ []) in
    let same = length-reverse s in
    rw
      (
        pos,
        line,
        send_all_lem client_sends (s ++ (newline ∷ [])) t.1 (omega (arith, size)),
        thread_main-line s k recvs sends clean fits (omega arith) t.0 (omega arith),
      )
      (receive_once-line (s ++ (newline ∷ [])) j client_recvs (reverse s ++ (newline ∷ []))
        (NoNul-append (reverse s) (newline ∷ []) (NoNul-reverse s clean) (refl, tt))
        (omega (arith, back)) (omega (arith, back, same)) (omega (arith, back, same)))
