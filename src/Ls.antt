-- ===== src/Ls.antt =====
-- ls_server.c and ls_client.c: a directory listing over a socket. The process that runs `ls` is not
-- under the programs' control: what it writes is a list of pieces that recv gives to the client.
pub mod Splitting
pub mod Copying
pub mod Tests
use cs4440proj3_final.Prelude.{
  ℕ, zero, suc, ◌+◌, ◌-◌, Bool, true, false, ◌||◌, Option, none, some, List, [], ◌∷◌, ◌++◌, Bytes,
  take, ◌==◌, if◌then◌else◌,
}
use cs4440proj3_final.Text.{newline, space, c_string}
use cs4440proj3_final.Net.Payload.{buf_size}

-- one of " \t\r\n"
unfoldable pub is_blank : ℕ → Bool
is_blank c = (c == space) || (c == 9) || (c == 13) || (c == newline)

-- strtok skips blanks, and a token goes on to the next blank or to the end.
unfoldable pub token_of : Bytes → Bytes × Bytes
token_of [] = ([], [])
token_of (c ∷ s) = let (t, rest) = token_of s in if is_blank c then ([], s) else (c ∷ t, rest)

unfoldable pub skip_blanks : Bytes → Bytes
skip_blanks [] = []
skip_blanks (c ∷ s) = let rest = skip_blanks s in if is_blank c then rest else c ∷ s

-- The tokens of a string: NULL, the result of strtok at the end, is `none`.
unfoldable pub strtok : Bytes → Option (Bytes × Bytes)
unfolding skip_blanks token_of
strtok s = elim (skip_blanks s) [ [] ↦ none | c ∷ rest ↦ some (token_of (c ∷ rest)) ]

-- while (tok && ai < 127): as many tokens as there is room for
unfoldable pub take_tokens : ℕ → Bytes → List Bytes
take_tokens zero s = []
take_tokens (suc room) s = elim (strtok s) [
  | none ↦ []
  | some (t, rest) ↦ t ∷ take_tokens room rest
]

-- "ls"
abbrev pub program : Bytes
program = b'l' ∷ b's' ∷ []

-- argv_exec has room for 126 tokens behind the program's name and before the NULL.
abbrev pub max_tokens : ℕ
max_tokens = 126

-- What the child passes to execvp for the bytes of its one recv.
unfoldable pub argv_exec : Bytes → List Bytes
argv_exec received = program ∷ take_tokens max_tokens (c_string (take (buf_size - 1) received))

-- How a child of the server ends up: the exit code 1, or the arguments that run. `none` is a recv
-- that failed; the two tests are the results of dup2.
pub data Child : Type 0 where
  exits : Child
  runs : List Bytes → Child

unfoldable pub child : Option Bytes → Bool → Bool → Child
child none out err = exits
child (some received) out err =
    if out then (if err then runs (argv_exec received) else exits) else exits
