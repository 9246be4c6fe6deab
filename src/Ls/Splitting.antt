-- ===== src/Ls/Splitting.antt =====
-- The arguments that the child of ls_server.c passes on, for the line of ls_client.c and for others.
use mathlib.Core.List.{append_assoc}
use cs4440proj3_final.Prelude.{
  ℕ, zero, suc, ◌+◌, ◌-◌, ◌≤◌, ◌<◌, ◌≡◌, refl, ap, ◌∙◌, ◌⊎◌, inl, inr, true, false, List, [], ◌∷◌,
  ◌++◌, Bytes, arith, length, take, All, length-append, Bool-cases, ◌==◌, none, some,
}
use cs4440proj3_final.Text.{newline, space, c_string}
use cs4440proj3_final.Text.Strings.{NoNul, c_string-NoNul, NoNul-append, NoNul-c_string}
use cs4440proj3_final.Net.Payload.{buf_size, joined, payload, payload_lem, take-all, NoNul-joined}
use cs4440proj3_final.Ls.{
  is_blank, token_of, skip_blanks, strtok, take_tokens, program, max_tokens, argv_exec,
}

-- neither a blank nor the NUL
abbrev Solid : ℕ → Type 0
Solid c = (is_blank c ≡ false) × ((c == 0) ≡ false)

-- what a token can be
abbrev pub IsArg : Bytes → Type 0
IsArg a = (0 < length a) × All Solid a

NoNul-Solid : (s : Bytes) → All Solid s → NoNul s
NoNul-Solid [] h = tt
NoNul-Solid (c ∷ s) h = (h.0.1, NoNul-Solid s h.1)

NoNul-args : (args : List Bytes) → All IsArg args → All NoNul args
NoNul-args [] h = tt
NoNul-args (a ∷ args) h = (NoNul-Solid a h.0.1, NoNul-args args h.1)

-- A blank ends a token.
token_of-append :
    (a : Bytes) (b : ℕ) (rest : Bytes)
    → All Solid a
    → is_blank b ≡ true
    → token_of (a ++ (b ∷ rest)) ≡ (a, rest)
unfolding token_of
token_of-append [] b rest h e = rw e
token_of-append (c ∷ a) b rest h e = rw (h.0.0, token_of-append a b rest h.1 e)

strtok-append :
    (a : Bytes) (b : ℕ) (rest : Bytes)
    → IsArg a
    → is_blank b ≡ true
    → strtok (a ++ (b ∷ rest)) ≡ some (a, rest)
unfolding strtok skip_blanks
strtok-append [] b rest h e = absurd (omega (arith, h.0))
strtok-append (c ∷ a) b rest h e =
    rw (h.1.0.0, strtok) (ap (λ (p : Bytes × Bytes). some p) (token_of-append (c ∷ a) b rest h.1 e))

take_tokens-end : (n : ℕ) → take_tokens n [] ≡ []
unfolding take_tokens strtok skip_blanks
take_tokens-end zero = refl
take_tokens-end (suc n) = refl

take_tokens-step :
    (n : ℕ) (s : Bytes) {t rest : Bytes}
    → strtok s ≡ some (t, rest)
    → take_tokens (suc n) s ≡ t ∷ take_tokens n rest
unfolding take_tokens
take_tokens-step n s e = rw (e, take_tokens)

-- As many arguments as there is room for come back from the line.
take_tokens-joined :
    (n : ℕ) (args : List Bytes)
    → All IsArg args
    → 0 < length args
    → length args ≤ n
    → take_tokens n (joined args ++ (newline ∷ [])) ≡ args
unfolding joined is_blank
take_tokens-joined n [] h some_arg room = absurd (omega arith)
take_tokens-joined zero (a ∷ args) h some_arg room = absurd (omega arith)
take_tokens-joined (suc n) (a ∷ []) h some_arg room =
    take_tokens-step n _ (strtok-append a newline [] h.0 refl) ∙ ap (λ l. a ∷ l) (take_tokens-end n)
take_tokens-joined (suc n) (a ∷ b ∷ args) h some_arg room =
    let tail = joined (b ∷ args) ++ (newline ∷ []) in
    ap (take_tokens (suc n)) (append_assoc a (space ∷ joined (b ∷ args)) (newline ∷ []))
    ∙ take_tokens-step n _ (strtok-append a space tail h.0 refl)
    ∙ ap (λ l. a ∷ l) (take_tokens-joined n (b ∷ args) h.1 (omega arith) (omega arith))

-- At least one argument and at most 126, none of them empty or with a blank or a NUL in it, that fit
-- the client's buffer: the server passes exactly these to ls, if one recv gives it the client's line.
pub argv_exec-payload :
    (args : List Bytes)
    → All IsArg args
    → 0 < length args
    → length args ≤ max_tokens
    → length (joined args) + 1 < buf_size
    → argv_exec (payload args) ≡ program ∷ args
unfolding argv_exec
argv_exec-payload args h some_arg few fits =
    let line = joined args ++ (newline ∷ []) in
    rw
      (
        payload_lem args fits,
        take-all (buf_size - 1) line (omega (arith, length-append (joined args) (newline ∷ []))),
        c_string-NoNul line
            (NoNul-append (joined args) _ (NoNul-joined args (NoNul-args args h)) (refl, tt)),
      )
      (ap (λ l. program ∷ l) (take_tokens-joined max_tokens args h some_arg few))

-- What is skipped, and what a token is, of any string.
token_of-Solid : (s : Bytes) → NoNul s → All Solid (token_of s).0 × NoNul (token_of s).1
unfolding token_of
token_of-Solid [] h = (tt, tt)
token_of-Solid (c ∷ s) h = elim (Bool-cases (is_blank c)) [
  | inl blank ↦ rw blank (tt, h.1)
  | inr solid ↦ rw solid (((solid, h.0), (token_of-Solid s h.1).0), (token_of-Solid s h.1).1)
]

-- strtok finds nothing, or something that can be an argument, in a string without a NUL.
strtok_cases :
    (s : Bytes)
    → NoNul s
    → (strtok s ≡ none)
      ⊎ ((t : Bytes) × (rest : Bytes) × (strtok s ≡ some (t, rest)) × IsArg t × NoNul rest)
unfolding strtok skip_blanks token_of
strtok_cases [] h = inl refl
strtok_cases (c ∷ s) h = elim (Bool-cases (is_blank c)) [
  | inl blank ↦ rw (blank, strtok) (strtok_cases s h.1)
  | inr solid ↦
      let rest = token_of-Solid s h.1 in
      rw (solid, strtok)
        (inr (
          c ∷ (token_of s).0,
          (token_of s).1,
          rw solid,
          (omega arith, ((solid, h.0), rest.0)),
          rest.1,
        ))
]

take_tokens-none : (n : ℕ) (s : Bytes) → strtok s ≡ none → take_tokens (suc n) s ≡ []
unfolding take_tokens
take_tokens-none n s e = rw (e, take_tokens)

take_tokens-IsArg :
    (n : ℕ) (s : Bytes) → NoNul s → All IsArg (take_tokens n s) × (length (take_tokens n s) ≤ n)
unfolding take_tokens
take_tokens-IsArg zero s h = (tt, omega arith)
take_tokens-IsArg (suc n) s h = elim (strtok_cases s h) [
  | inl e ↦ rw (take_tokens-none n s e) (tt, omega arith)
  | inr (t, rest, e, arg, left) ↦
      let more = take_tokens-IsArg n rest left in
      rw (take_tokens-step n s e) ((arg, more.0), omega (arith, more.1))
]

-- Whatever a client sends, the program's name, the arguments behind it and the NULL are at most 128
-- pointers, what argv_exec has room for, and no argument is empty or has a blank or a NUL in it.
pub argv_exec-IsArg :
    (received : Bytes)
    → (args : List Bytes) × (argv_exec received ≡ program ∷ args)
      × All IsArg args
      × (length (argv_exec received) + 1 ≤ 128)
unfolding argv_exec
argv_exec-IsArg received =
    let s = c_string (take (buf_size - 1) received) in
    let ok = take_tokens-IsArg max_tokens s (NoNul-c_string _) in
    (take_tokens max_tokens s, refl, ok.0, omega (arith, ok.1))
