-- ===== src/Ls/Copying.antt =====
-- main of ls_client.c, and what it prints.
pub mod Exit
use cs4440proj3_final.Prelude.{ℕ, zero, suc, List, [], ◌∷◌, Bytes, take, drop, min}
use cs4440proj3_final.Net.Syscalls.{Recv, chunk, Got, Read, after}
use cs4440proj3_final.Net.Payload.{buf_size}
use cs4440proj3_final.Net.Dial.{System, exit, waiting, Run}
use cs4440proj3_final.Net.Dial

-- while ((r = recv(s, buf, sizeof(buf), 0)) > 0) fwrite(...); a recv that is interrupted is an error.
pub copy_loop : List Recv → Bytes → Read
copy_loop [] stream = record { how = Got.blocked; got = []; left = stream }
copy_loop (chunk k ∷ script) [] = record { how = Got.eof; got = []; left = [] }
copy_loop (chunk k ∷ script) (b ∷ stream) =
    after (take (min buf_size (suc k)) (b ∷ stream))
      (copy_loop script (drop (min buf_size (suc k)) (b ∷ stream)))
copy_loop (Recv.interrupted ∷ script) stream = record { how = Got.failed; got = []; left = stream }
copy_loop (Recv.failed ∷ script) stream = record { how = Got.failed; got = []; left = stream }

-- how main ends after the loop
pub copied : Bytes → Got → Bytes → Run
copied out Got.eof got = record { ending = exit 0; sockets = 0; sent = out; printed = got }
copied out Got.blocked got = record { ending = waiting; sockets = 1; sent = out; printed = got }
copied out _ got = record { ending = exit 1; sockets = 0; sent = out; printed = got }

abbrev pub receive : Bytes → System → Run
receive out sys = let r = copy_loop sys.recvs sys.stream in copied out r.how r.got

pub ls_client : List Bytes → System → Run
ls_client = Dial.main receive
