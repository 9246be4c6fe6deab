-- ===== src/Net/Dial.antt =====
-- What client.c and ls_client.c have in common: the check of the arguments, the connection, and the
-- sending of the line. The results of the system's calls are given.
pub mod Sending
use cs4440proj3_final.Prelude.{
  ℕ, zero, suc, ◌-◌, ◌%◌, ◌^◌, Bool, true, false, Option, none, some, List, [], ◌∷◌, ◌++◌, Bytes,
  take, drop, ltb, if◌then◌else◌,
}
use cs4440proj3_final.Prelude.Int.{ℤ, pos, negsuc}
use cs4440proj3_final.Text.{scan_long}
use cs4440proj3_final.Net.Syscalls.{Send, sent, Outcome, Recv}
use cs4440proj3_final.Net.Payload.{payload}

-- (int)v of a `long`
unfoldable pub to_int : ℤ → ℤ
to_int (pos n) =
    if ltb (n % 2 ^ 32) (2 ^ 31) then pos (n % 2 ^ 32) else negsuc (2 ^ 32 - 1 - n % 2 ^ 32)
to_int (negsuc n) =
    if ltb (n % 2 ^ 32) (2 ^ 31) then negsuc (n % 2 ^ 32) else pos (2 ^ 32 - 1 - n % 2 ^ 32)

unfoldable pub atoi : Bytes → ℤ
unfolding to_int scan_long
atoi s = elim (scan_long s) [ none ↦ pos 0 | some (v, rest) ↦ to_int v ]

abbrev pub is_positive : ℤ → Bool
is_positive (pos zero) = false
is_positive (pos (suc n)) = true
is_positive (negsuc n) = false

-- What the system does: whether socket, inet_pton and connect succeed, what each call of send and
-- recv does, and the bytes that the server sends before it closes the connection.
pub record System : Type 0 where
  pub socket : Bool
  pub pton : Bool
  pub connect : Bool
  pub sends : List Send
  pub recvs : List Recv
  pub stream : Bytes

-- `waiting`: the last call of the script has not returned.
pub data Ending : Type 0 where
  exit : ℕ → Ending
  waiting : Ending

-- How a client ends, how many sockets it has open then, what it has sent and what it has printed.
pub record Run : Type 0 where
  pub ending : Ending
  pub sockets : ℕ
  pub sent : Bytes
  pub printed : Bytes

abbrev pub gives_up : Run
gives_up = record { ending = exit 1; sockets = 0; sent = []; printed = [] }

-- while (sent < need) { w = send(...); if (w <= 0) fail; sent += w; }
pub send_all : List Send → Bytes → Outcome × Bytes
send_all script [] = (Outcome.done, [])
send_all [] (b ∷ rest) = (Outcome.blocked, [])
send_all (Send.sent zero ∷ script) (b ∷ rest) = (Outcome.failed, [])
send_all (Send.sent (suc k) ∷ script) (b ∷ rest) =
    let (r, out) = send_all script (drop k rest) in (r, b ∷ take k rest ++ out)
send_all (Send.interrupted ∷ script) (b ∷ rest) = (Outcome.failed, [])
send_all (Send.failed ∷ script) (b ∷ rest) = (Outcome.failed, [])

-- What follows the sending; `receive` is the rest of main, given what was sent.
unfoldable pub sent_then : (Bytes → System → Run) → Outcome × Bytes → System → Run
sent_then receive (Outcome.done, out) sys = receive out sys
sent_then receive (Outcome.failed, out) sys = record gives_up { sent = out }
sent_then receive (Outcome.blocked, out) sys = record {
  ending = waiting;
  sockets = 1;
  sent = out;
  printed = [];
}

-- The call that fails decides; a socket that was opened is closed again.
unfoldable pub dial : (Bytes → System → Run) → Bytes → System → Run
dial receive line sys =
    if sys.socket
    then (if sys.pton
        then (if sys.connect then sent_then receive (send_all sys.sends line) sys else gives_up)
        else gives_up)
    else gives_up

-- main with the arguments behind argv[0]
unfoldable pub main : (Bytes → System → Run) → List Bytes → System → Run
main receive (host ∷ port ∷ arg ∷ args) sys =
    if is_positive (atoi port) then dial receive (payload (arg ∷ args)) sys else gives_up
main receive _ sys = gives_up
