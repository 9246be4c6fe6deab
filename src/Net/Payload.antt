-- ===== src/Net/Payload.antt =====
-- The line that client.c and ls_client.c build from their arguments with strncat.
use mathlib.Core.List.{append_assoc, append-nil}
use cs4440proj3_final.Prelude.{
  ℕ, zero, suc, ◌+◌, ◌-◌, ◌≤◌, ◌<◌, ◌≡◌, refl, ap, ◌∙◌, List, [], ◌∷◌, ◌++◌, Bytes, arith, length,
  take, drop, All, length-append, length-take, sym,
}
use cs4440proj3_final.Text.{newline, space}
use cs4440proj3_final.Text.Strings.{NoNul, NoNul-append}

-- BUF of both programs
abbrev pub buf_size : ℕ
buf_size = 8192

-- strncat(out, src, sizeof(out) - strlen(out) - 1)
unfoldable pub strncat : Bytes → Bytes → Bytes
strncat out src = out ++ take (buf_size - length out - 1) src

-- for (i = 3; i < argc; ++i): a space behind every argument but the last
unfoldable pub append_args : Bytes → List Bytes → Bytes
append_args out [] = out
append_args out (a ∷ []) = strncat out a
append_args out (a ∷ b ∷ args) = append_args (strncat (strncat out a) (space ∷ [])) (b ∷ args)

unfoldable pub payload : List Bytes → Bytes
unfolding append_args strncat
payload args = strncat (append_args [] args) (newline ∷ [])

-- The arguments with a space between two of them.
unfoldable pub joined : List Bytes → Bytes
joined [] = []
joined (a ∷ []) = a
joined (a ∷ b ∷ args) = a ++ (space ∷ joined (b ∷ args))

pub take-all : (n : ℕ) (s : Bytes) → length s ≤ n → take n s ≡ s
take-all zero [] h = refl
take-all zero (c ∷ s) h = elim h [ ]
take-all (suc n) [] h = refl
take-all (suc n) (c ∷ s) h = ap (λ l. c ∷ l) (take-all n s (omega arith))

pub drop-all : (n : ℕ) (s : Bytes) → length s ≤ n → drop n s ≡ []
drop-all zero [] h = refl
drop-all zero (c ∷ s) h = elim h [ ]
drop-all (suc n) [] h = refl
drop-all (suc n) (c ∷ s) h = drop-all n s (omega arith)

strncat_lem : (out src : Bytes) → length out + length src < buf_size → strncat out src ≡ out ++ src
unfolding strncat
strncat_lem out src h = ap (λ l. out ++ l) (take-all _ src (omega arith))

strncat_small :
    (out src : Bytes)
    → length out < buf_size
    → (length out ≤ length (strncat out src)) × (length (strncat out src) < buf_size)
unfolding strncat
strncat_small out src h =
    let piece = take (buf_size - length out - 1) src in
    let whole = length-append out piece in
    let cut = length-take (buf_size - length out - 1) src in
    (omega (arith, whole, cut), omega (arith, whole, cut))

append_args_small :
    (out : Bytes) (args : List Bytes)
    → length out < buf_size
    → length (append_args out args) < buf_size
unfolding append_args
append_args_small out [] h = h
append_args_small out (a ∷ []) h = (strncat_small out a h).1
append_args_small out (a ∷ b ∷ args) h =
    append_args_small (strncat (strncat out a) (space ∷ [])) (b ∷ args)
      (strncat_small _ (space ∷ []) (strncat_small out a h).1).1

-- Whatever the arguments are, the line and the NUL behind it fit the buffer.
payload_small : (args : List Bytes) → length (payload args) < buf_size
unfolding payload
payload_small args = (strncat_small _ (newline ∷ []) (append_args_small [] args (omega arith))).1

append_args_lem :
    (out : Bytes) (args : List Bytes)
    → length out + length (joined args) < buf_size
    → append_args out args ≡ out ++ joined args
unfolding append_args joined
append_args_lem out [] h = sym (append-nil out)
append_args_lem out (a ∷ []) h = strncat_lem out a h
append_args_lem out (a ∷ b ∷ args) h =
    let room : length out + (length a + suc (length (joined (b ∷ args)))) < buf_size =
      omega (arith, length-append a (space ∷ joined (b ∷ args))) in
    let first : strncat out a ≡ out ++ a = strncat_lem out a (omega arith) in
    let second : strncat (out ++ a) (space ∷ []) ≡ (out ++ a) ++ (space ∷ []) =
      strncat_lem (out ++ a) (space ∷ []) (omega (arith, length-append out a)) in
    rw (first, second)
      (append_args_lem ((out ++ a) ++ (space ∷ [])) (b ∷ args)
          (omega (arith, length-append (out ++ a) (space ∷ []), length-append out a))
        ∙ simp append_assoc)

-- Arguments that fit are sent with a space between two of them and a newline at the end.
pub payload_lem :
    (args : List Bytes)
    → length (joined args) + 1 < buf_size
    → payload args ≡ joined args ++ (newline ∷ [])
unfolding payload
payload_lem args h =
    rw (append_args_lem [] args (omega arith))
      (strncat_lem (joined args) (newline ∷ []) (omega arith))

pub NoNul-joined : (args : List Bytes) → All NoNul args → NoNul (joined args)
unfolding joined
NoNul-joined [] h = tt
NoNul-joined (a ∷ []) h = h.0
NoNul-joined (a ∷ b ∷ args) h = NoNul-append a _ h.0 (refl, NoNul-joined (b ∷ args) h.1)
