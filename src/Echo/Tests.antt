-- ===== src/Echo/Tests.antt =====
-- The theorems on server.c and client.c at small inputs.
use cs4440proj3_final.Prelude.{◌≡◌, refl, true, [], ◌∷◌, Bytes, replicate, arith}
use cs4440proj3_final.Text.{newline}
use cs4440proj3_final.Net.Syscalls.{sent, chunk}
use cs4440proj3_final.Net.Payload.{joined, payload}
use cs4440proj3_final.Net.Dial.{exit, is_positive, atoi}
use cs4440proj3_final.Echo.Client.{client}
use cs4440proj3_final.Echo.Client.Reversing.{answered, client-reverses}

-- "ab" and "c"
abbrev word : Bytes
word = b'a' ∷ b'b' ∷ []

abbrev word' : Bytes
word' = b'c' ∷ []

abbrev port : Bytes
port = b'8' ∷ []

port_lem : is_positive (atoi port) ≡ true
unfolding atoi
port_lem = refl

client-reverses_example :
    client (word' ∷ port ∷ word ∷ word' ∷ []) (
      answered
        (word ∷ word' ∷ [])
        (chunk 9 ∷ [])
        (replicate 5 (sent 1))
        (replicate 6 (sent 2))
        (chunk 7 ∷ []))
    ≡ record {
      ending = exit 0;
      sockets = 0;
      sent = payload (word ∷ word' ∷ []);
      printed = b'c' ∷ b' ' ∷ b'b' ∷ b'a' ∷ newline ∷ [];
    }
unfolding joined
client-reverses_example =
    client-reverses word' port word (word' ∷ []) 9 7 [] [] (replicate 5 (sent 1))
      (replicate 6 (sent 2)) port_lem ((refl, (refl, tt)), ((refl, tt), tt)) (omega arith)
      (omega arith) (omega arith) (omega arith)
