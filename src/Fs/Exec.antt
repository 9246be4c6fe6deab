-- ===== src/Fs/Exec.antt =====
-- Functions of fs_server.c that may fail: what was changed before a failure stays changed.
use cs4440proj3_final.Prelude.{◌≡◌, ap}

-- `io` is the result -1 of a failed disk operation. `fault` is a run with no meaning in C: an index
-- outside the cached table, or a loop that does not end. `waits` is a call of recv that never returns:
-- the connection is there, and the other end has nothing more to send.
pub data Res (A : Type 0) : Type 0 where
  ok : A → Res A
  io fault waits : Res A

abbrev pub Exec : Type 0 → Type 0 → Type 0
Exec S A = S → Res A × S

abbrev pub pure : {S A : Type 0} → A → Exec S A
pure a s = (ok a, s)

abbrev pub raise : {S A : Type 0} → Res A → Exec S A
raise r s = (r, s)

abbrev pub after : {S A B : Type 0} → Res A → (A → Exec S B) → Exec S B
after (ok a) f s = f a s
after io f s = (io, s)
after fault f s = (fault, s)
after waits f s = (waits, s)

infixl 5 ◌>>=◌ ◌>>◌
abbrev pub ◌>>=◌ : {S A B : Type 0} → Exec S A → (A → Exec S B) → Exec S B
◌>>=◌ m f s = let (r, s') = m s in after r f s'

abbrev pub ◌>>◌ : {S A B : Type 0} → Exec S A → Exec S B → Exec S B
m >> k = m >>= λ _. k

-- `m` runs from `s`, returns `a` and ends in a state with the property `P`.
pub record Runs {S A : Type 0} (m : Exec S A) (s : S) (a : A) (P : S → Type 0) : Type 0 where
  pub end : S
  pub eq : m s ≡ (ok a, end)
  pub post : P end

-- What a sequence does after its first part.
pub step :
    {S A B : Type 0} {r : Res A × S} {s' : S} {a : A} (f : A → Exec S B)
    → r ≡ (ok a, s')
    → after r.0 f r.1 ≡ f a s'
step f e = ap (λ p. after p.0 f p.1) e
