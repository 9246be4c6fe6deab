-- ===== src/Net/Tests.antt =====
-- The theorems on the socket loops at small inputs.
use cs4440proj3_final.Prelude.{[], ◌∷◌}
use cs4440proj3_final.Net.Syscalls.{chunk, Recv, read_loop}
use cs4440proj3_final.Net.Syscalls.Exact.{IsExact, read_loop-IsExact}

read_loop-IsExact_example :
    IsExact 3
      (1 ∷ 2 ∷ 3 ∷ 4 ∷ [])
      (read_loop (chunk 1 ∷ Recv.interrupted ∷ chunk 7 ∷ []) 3 (1 ∷ 2 ∷ 3 ∷ 4 ∷ []))
read_loop-IsExact_example =
    read_loop-IsExact (chunk 1 ∷ Recv.interrupted ∷ chunk 7 ∷ []) 3 (1 ∷ 2 ∷ 3 ∷ 4 ∷ [])
