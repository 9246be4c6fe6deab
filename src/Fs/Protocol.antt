-- ===== src/Fs/Protocol.antt =====
-- The replies of fs_server.c's protocol, as a client reads them: a status line, or a status, the length
-- and the contents of a file. They are written out here apart from the handlers, to state what the
-- handlers reply.
use cs4440proj3_final.Prelude.{ℕ, [], ◌∷◌, ◌++◌, Bytes, length}
use cs4440proj3_final.Text.{print_dec}

-- the status and a newline
abbrev pub status : ℕ → Bytes
status c = c ∷ 10 ∷ []

-- "0 <length> <bytes>\n"
abbrev pub file_reply : Bytes → Bytes
file_reply bytes = 48 ∷ 32 ∷ (print_dec (length bytes) ++ (32 ∷ (bytes ++ (10 ∷ []))))

-- "1 0 \n"
abbrev pub no_file : Bytes
no_file = 49 ∷ 32 ∷ 48 ∷ 32 ∷ 10 ∷ []
