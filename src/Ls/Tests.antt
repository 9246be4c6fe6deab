-- ===== src/Ls/Tests.antt =====
-- The theorems on ls_server.c and ls_client.c at small inputs.
use cs4440proj3_final.Prelude.{
  ◌+◌, ◌≤◌, ◌≡◌, refl, ap, true, List, [], ◌∷◌, Bytes, length, replicate, arith, All,
}
use cs4440proj3_final.Net.Syscalls.{sent, chunk}
use cs4440proj3_final.Net.Payload.{joined, payload}
use cs4440proj3_final.Net.Dial.{System, Run, exit, is_positive, atoi}
use cs4440proj3_final.Ls.{is_blank, program, argv_exec}
use cs4440proj3_final.Ls.Splitting.{IsArg, argv_exec-IsArg}
use cs4440proj3_final.Ls.Copying.{ls_client}
use cs4440proj3_final.Ls.Copying.Exit.{argv_exec-ls_client, ls_client-exits}

-- "-l /tmp"
abbrev option : Bytes
option = b'-' ∷ b'l' ∷ []

abbrev folder : Bytes
folder = b'/' ∷ b't' ∷ b'm' ∷ b'p' ∷ []

abbrev host : Bytes
host = b'h' ∷ []

abbrev port : Bytes
port = b'9' ∷ b'1' ∷ []

-- the line goes out byte by byte, and the two bytes of the listing come in one piece
abbrev sys : System
sys = record {
  socket = true;
  pton = true;
  connect = true;
  sends = replicate 8 (sent 1);
  recvs = chunk 10 ∷ chunk 10 ∷ chunk 10 ∷ [];
  stream = b'a' ∷ 10 ∷ [];
}

line : payload (option ∷ folder ∷ []) ≡ b'-' ∷ b'l' ∷ b' ' ∷ b'/' ∷ b't' ∷ b'm' ∷ b'p' ∷ 10 ∷ []
unfolding payload
line = refl

port_lem : is_positive (atoi port) ≡ true
unfolding atoi
port_lem = refl

-- how it runs
run : ls_client (host ∷ port ∷ option ∷ folder ∷ []) sys ≡ record {
  ending = exit 0;
  sockets = 0;
  sent = payload (option ∷ folder ∷ []);
  printed = b'a' ∷ 10 ∷ [];
}
run =
    ls_client-exits host port option (folder ∷ []) sys port_lem (refl, refl, refl) (omega arith)
      (rw line (omega arith)) (omega arith) (omega arith)

ls_client-exits_example : ls_client (host ∷ port ∷ option ∷ folder ∷ []) sys ≡ record {
  ending = exit 0;
  sockets = 0;
  sent = payload (option ∷ folder ∷ []);
  printed = b'a' ∷ 10 ∷ [];
}
ls_client-exits_example =
    ls_client-exits host port option (folder ∷ []) sys port_lem (refl, refl, refl) (omega arith)
      (rw line (omega arith)) (omega arith) (omega arith)

abbrev words-IsArg : All IsArg (option ∷ folder ∷ [])
unfolding is_blank
words-IsArg = (
  (omega arith, ((refl, refl), ((refl, refl), tt))),
  ((omega arith, ((refl, refl), ((refl, refl), ((refl, refl), ((refl, refl), tt))))), tt),
)

argv_exec-ls_client_example :
    (argv_exec (ls_client (host ∷ port ∷ option ∷ folder ∷ []) sys).sent
      ≡ program ∷ option ∷ folder ∷ [])
    × ((ls_client (host ∷ port ∷ option ∷ folder ∷ []) sys).printed ≡ b'a' ∷ 10 ∷ [])
unfolding joined
argv_exec-ls_client_example =
    argv_exec-ls_client host port option (folder ∷ []) sys (ap (λ (r : Run). r.ending) run)
      words-IsArg (omega arith) (omega arith)

argv_exec-IsArg_example :
    (args : List Bytes) × (argv_exec (b' ' ∷ b'-' ∷ 10 ∷ b'a' ∷ 0 ∷ b'b' ∷ []) ≡ program ∷ args)
    × All IsArg args
    × (length (argv_exec (b' ' ∷ b'-' ∷ 10 ∷ b'a' ∷ 0 ∷ b'b' ∷ [])) + 1 ≤ 128)
argv_exec-IsArg_example = argv_exec-IsArg (b' ' ∷ b'-' ∷ 10 ∷ b'a' ∷ 0 ∷ b'b' ∷ [])
