-- ===== src/Echo/Client.antt =====
-- main of client.c.
pub mod Reversing
use cs4440proj3_final.Prelude.{ℕ, zero, suc, ◌-◌, List, [], ◌∷◌, Bytes, take, min}
use cs4440proj3_final.Text.{c_string}
use cs4440proj3_final.Net.Syscalls.{Recv, chunk}
use cs4440proj3_final.Net.Payload.{buf_size}
use cs4440proj3_final.Net.Dial.{System, exit, waiting, Run, gives_up}
use cs4440proj3_final.Net.Dial

-- What main does with its one recv: the bytes are printed as a C string; an error and a connection
-- that was closed before have the exit code 1.
pub receive_once : Bytes → List Recv → Bytes → Run
receive_once out [] stream = record { ending = waiting; sockets = 1; sent = out; printed = [] }
receive_once out (chunk k ∷ _) [] = record gives_up { sent = out }
receive_once out (chunk k ∷ _) (b ∷ stream) = record {
  ending = exit 0;
  sockets = 0;
  sent = out;
  printed = c_string (take (min (buf_size - 1) (suc k)) (b ∷ stream));
}
receive_once out (Recv.interrupted ∷ _) stream = record gives_up { sent = out }
receive_once out (Recv.failed ∷ _) stream = record gives_up { sent = out }

abbrev receive : Bytes → System → Run
receive out sys = receive_once out sys.recvs sys.stream

pub client : List Bytes → System → Run
client = Dial.main receive
