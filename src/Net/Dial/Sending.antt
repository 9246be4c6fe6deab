-- ===== src/Net/Dial/Sending.antt =====
-- The sending loop of client.c and ls_client.c.
use cs4440proj3_final.Prelude.{
  zero, suc, ◌≤◌, ◌≡◌, refl, ap, ◌∙◌, List, [], ◌∷◌, ◌++◌, Bytes, arith, length, take, drop, All,
  length-drop,
}
use cs4440proj3_final.Net.Syscalls.{Send, Outcome}
use cs4440proj3_final.Net.Syscalls.Exact.{take-append-drop}
use cs4440proj3_final.Net.Dial.{send_all}

-- a call that takes at least one byte
abbrev pub Takes : Send → Type 0
Takes (Send.sent (suc k)) = Unit
Takes _ = ⊥

-- All of the buffer has gone out if the loop ends by its test.
pub send_all-done :
    (script : List Send) (buf : Bytes)
    → (send_all script buf).0 ≡ Outcome.done
    → (send_all script buf).1 ≡ buf
unfolding send_all
send_all-done script [] h = refl
send_all-done [] (b ∷ rest) h = cc
send_all-done (Send.sent zero ∷ script) (b ∷ rest) h = cc
send_all-done (Send.sent (suc k) ∷ script) (b ∷ rest) h =
    ap (λ l. b ∷ (take k rest ++ l)) (send_all-done script (drop k rest) h)
    ∙ ap (λ l. b ∷ l) (take-append-drop k rest)
send_all-done (Send.interrupted ∷ script) (b ∷ rest) h = cc
send_all-done (Send.failed ∷ script) (b ∷ rest) h = cc

-- As many calls that take a byte as there are bytes are enough.
pub send_all-ends :
    (script : List Send) (buf : Bytes)
    → All Takes script
    → length buf ≤ length script
    → (send_all script buf).0 ≡ Outcome.done
unfolding send_all
send_all-ends script [] t h = refl
send_all-ends [] (b ∷ rest) t h = absurd (omega arith)
send_all-ends (Send.sent zero ∷ script) (b ∷ rest) t h = absurd t.0
send_all-ends (Send.sent (suc k) ∷ script) (b ∷ rest) t h =
    send_all-ends script (drop k rest) t.1 (omega (arith, length-drop k rest))
send_all-ends (Send.interrupted ∷ script) (b ∷ rest) t h = absurd t.0
send_all-ends (Send.failed ∷ script) (b ∷ rest) t h = absurd t.0
