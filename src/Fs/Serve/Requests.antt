-- ===== src/Fs/Serve/Requests.antt =====
-- The text of the requests of fs_server.c: what a client sends reaches the handler, and the reply is
-- what a map of files says.
use mathlib.Core.List.{append_assoc}
use cs4440proj3_final.Prelude.{
  ℕ, ◌-◌, ◌^◌, ◌<◌, ◌≡◌, refl, ap, sym, ◌∙◌, true, false, Option, some, [], ◌∷◌, ◌++◌, Bytes, arith,
  length, length-append, leb, ◌==◌,
}
use cs4440proj3_final.Text.{newline, space, is_space, print_dec, scan_word, scan_u32}
use cs4440proj3_final.Text.Lines.{Plain, Plain-append, print_dec-Plain, length-print_dec}
use cs4440proj3_final.Text.Decimal.{scan_u32-print_dec}
use cs4440proj3_final.Text.Strings.{NoNul, NoNul-append, c_string-NoNul, print_dec-NoNul}
use cs4440proj3_final.Text.Scanning.{IsWord, IsWord-Plain, scan_word-IsWord, skip_space-IsWord}
use cs4440proj3_final.Net.{Conn, readline, read_exact}
use cs4440proj3_final.Disk.Serve.Requests.{line_of-Plain}
use cs4440proj3_final.Fs.Link.Laws.{take-length-append}
use cs4440proj3_final.Fs.Commands.{cmd_write}
use cs4440proj3_final.Fs.Serve.{
  Client, max_line, respond, receive_write, on_W, on_command, on_line, client_round,
}
use cs4440proj3_final.Fs.Files.Sessions.{
  Request, format, create, delete, read, write, perform, IsValid,
}

-- The text of a request, with the bytes that follow a W.
unfoldable pub text : Request → Bytes
text format = b'F' ∷ newline ∷ []
text (create name) = b'C' ∷ space ∷ (name ++ (newline ∷ []))
text (delete name) = b'D' ∷ space ∷ (name ++ (newline ∷ []))
text (read name) = b'R' ∷ space ∷ (name ++ (newline ∷ []))
text (write name bytes) =
    b'W' ∷ space ∷ (name ++ (space ∷ (print_dec (length bytes) ++ (newline ∷ bytes))))

-- The names stand in the text as one word.
abbrev pub IsWritten : Request → Type 0
IsWritten format = Unit {0}
IsWritten (create name) = IsWord name
IsWritten (delete name) = IsWord name
IsWritten (read name) = IsWord name
IsWritten (write name bytes) = IsWord name

-- The client's thread with these bytes to be read.
abbrev pub receiving : Bytes → Client → Client
receiving bytes c = record c { conn = record c.conn { input = bytes } }

-- A line that begins with a letter goes to the switch.
line_round :
    (cmd : ℕ) (args rest : Bytes) (c : Client)
    → is_space cmd ≡ false
    → Plain (cmd ∷ args)
    → NoNul (cmd ∷ args)
    → length args < 4094
    → client_round (receiving (cmd ∷ (args ++ (newline ∷ rest))) c)
      ≡ on_command cmd (args ++ (newline ∷ [])) (receiving rest c)
unfolding client_round readline on_line
line_round cmd args rest c h plain clean short =
    let whole : NoNul ((cmd ∷ args) ++ (newline ∷ [])) =
      NoNul-append (cmd ∷ args) (newline ∷ []) clean (refl, tt) in
    rw
      (
        line_of-Plain (max_line - 1) (cmd ∷ args) rest plain (omega arith),
        c_string-NoNul ((cmd ∷ args) ++ (newline ∷ [])) whole,
        skip_space-IsWord cmd (args ++ (newline ∷ [])) h,
      )
      (ground arith)

-- the letter W's line up to its newline, behind the letter
abbrev pub sizes : Bytes → ℕ → Bytes
sizes name len = space ∷ (name ++ (space ∷ print_dec len))

pub sizes-append :
    (name : Bytes) (len : ℕ) (rest : Bytes)
    → sizes name len ++ rest ≡ space ∷ (name ++ (space ∷ (print_dec len ++ rest)))
sizes-append name len rest = ap (λ l. space ∷ l) (append_assoc name (space ∷ print_dec len) rest)

-- Such a line fits the buffer and holds no newline and no NUL.
pub sizes_lem :
    (name : Bytes) (len : ℕ)
    → IsWord name
    → NoNul name
    → length name < 32
    → len < 2 ^ 32
    → (length (sizes name len) < 4094) × Plain (sizes name len) × NoNul (sizes name len)
sizes_lem name len word clean short small = (
  omega (arith, length-append name (space ∷ print_dec len), length-print_dec len (omega arith)),
  (
    refl,
    Plain-append name (space ∷ print_dec len) (IsWord-Plain name word) (refl, print_dec-Plain len),
  ),
  (refl, NoNul-append name (space ∷ print_dec len) clean (refl, print_dec-NoNul len)),
)

-- The text of a W and what follows it, split behind the line.
pub text-write :
    (name bytes rest : Bytes)
    → text (write name bytes) ++ rest
      ≡ b'W' ∷ (sizes name (length bytes) ++ (newline ∷ (bytes ++ rest)))
unfolding text
text-write name bytes rest =
    let len : ℕ = length bytes in
    ap (λ l. b'W' ∷ space ∷ l)
      (append_assoc name (space ∷ (print_dec len ++ (newline ∷ bytes))) rest
        ∙ ap (λ t. name ++ (space ∷ t)) (append_assoc (print_dec len) (newline ∷ bytes) rest))
    ∙ ap (λ t. b'W' ∷ t) (sym (sizes-append name len (newline ∷ (bytes ++ rest))))

on_W_lem :
    (args more name : Bytes) (len : ℕ) (c : Client)
    → scan_word args ≡ (name, more)
    → scan_u32 more ≡ some len
    → 0 < length name
    → on_W args c ≡ receive_write name len c
unfolding on_W
on_W_lem args more name len c word number ne =
    let named : (length name == 0) ≡ false = ground arith in
    rw (ap (λ (p : Bytes × Bytes). scan_u32 p.1) word ∙ number, on_W) (rw (word, named) refl)

module _ (rest : Bytes) (c : Client) where
  name_round :
      (cmd : ℕ) (name : Bytes)
      → is_space cmd ≡ false
      → (cmd == 0) ≡ false
      → IsWord name
      → NoNul name
      → length name < 32
      → client_round (receiving (cmd ∷ space ∷ (name ++ (newline ∷ rest))) c)
        ≡ on_command cmd (space ∷ (name ++ (newline ∷ []))) (receiving rest c)
  name_round cmd name h nz word clean short =
      line_round cmd (space ∷ name) rest c h (ground (arith, h), (refl, IsWord-Plain name word))
        (nz, (refl, clean)) (omega arith)

  read_exact-bytes :
      (bytes : Bytes)
      → read_exact (length bytes) (record c.conn { input = bytes ++ rest })
        ≡ (some bytes, record c.conn { input = rest })
  unfolding read_exact
  read_exact-bytes bytes =
      let long : leb (length bytes) (length (bytes ++ rest)) ≡ true =
        ground (arith, length-append bytes rest) in
      rw (long, (take-length-append bytes rest).0, (take-length-append bytes rest).1) refl

  receive_write-bytes :
      (name bytes : Bytes)
      → receive_write name (length bytes) (receiving (bytes ++ rest) c)
        ≡ respond (cmd_write name bytes) (receiving rest c)
  unfolding receive_write
  receive_write-bytes name bytes =
      rw (read_exact-bytes bytes, receive_write)
        (ap (λ conn. respond (cmd_write name bytes) (record c { conn = conn }))
          (ap (λ (p : Option Bytes × Conn). p.1) (read_exact-bytes bytes)))

  -- The text of a request at the front of the stream runs the handler of the request, with what follows
  -- it still in the stream.
  pub client_round-text :
      (r : Request)
      → IsValid r
      → IsWritten r
      → client_round (receiving (text r ++ rest) c) ≡ respond (perform r) (receiving rest c)
  unfolding text perform on_command
  client_round-text format valid word =
      line_round b'F' [] rest c refl (refl, tt) (refl, tt) (omega arith)
  client_round-text (create name) valid word =
      rw
        (
          append_assoc,
          name_round b'C' name refl refl word valid.0 valid.2,
          scan_word-IsWord name newline [] word valid.1 refl,
        )
        refl
  client_round-text (delete name) valid word =
      rw
        (
          append_assoc,
          name_round b'D' name refl refl word valid.0 valid.2,
          scan_word-IsWord name newline [] word valid.1 refl,
        )
        refl
  client_round-text (read name) valid word =
      rw
        (
          append_assoc,
          name_round b'R' name refl refl word valid.0 valid.2,
          scan_word-IsWord name newline [] word valid.1 refl,
        )
        refl
  client_round-text (write name bytes) valid word =
      let len : ℕ = length bytes in
      let small : len < 2 ^ 32 = omega (arith, valid.1) in
      let line = sizes_lem name len word valid.0.0 valid.0.2 small in
      ap (λ t. client_round (receiving t c)) (text-write name bytes rest)
      ∙ line_round b'W' (sizes name len) (bytes ++ rest) c refl (refl, line.1) (refl, line.2) line.0
      ∙ ap (λ t. on_command b'W' t (receiving (bytes ++ rest) c))
          (sizes-append name len (newline ∷ []))
      ∙ on_W_lem (space ∷ (name ++ (space ∷ (print_dec len ++ (newline ∷ [])))))
          (space ∷ (print_dec len ++ (newline ∷ []))) name len (receiving (bytes ++ rest) c)
          (scan_word-IsWord name space (print_dec len ++ (newline ∷ [])) word valid.0.1 refl)
          (scan_u32-print_dec len (newline ∷ []) small refl) valid.0.1
      ∙ receive_write-bytes name bytes
