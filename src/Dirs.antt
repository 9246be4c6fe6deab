-- ===== src/Dirs.antt =====
-- The paths of fs_dirs.c, the shell with directories on top of fs_server.c. A path is the C string
-- without its NUL.
pub mod Canonical
pub mod Shell
pub mod Tests
use cs4440proj3_final.Prelude.{
  ℕ, zero, suc, ◌+◌, ◌-◌, Bool, true, false, ◌&&◌, [], ◌∷◌, ◌++◌, Bytes, length, take, drop, get_or,
  ltb, ◌==◌, if◌then◌else◌,
}

abbrev pub slash : ℕ
slash = b'/'

-- strcmp(path, "/") == 0
abbrev pub is_root : Bytes → Bool
is_root [] = false
is_root (c ∷ []) = c == slash
is_root (c ∷ d ∷ s) = false

-- snprintf into a buffer of `size` bytes keeps its last byte for the NUL.
abbrev pub printed : ℕ → Bytes → Bytes
printed size s = take (size - 1) s

-- while (len > 1 && out[len - 1] == '/'), with `len` the length
unfoldable pub strip_slashes : ℕ → Bytes → Bytes
strip_slashes zero out = out
strip_slashes (suc k) out =
    let shorter = strip_slashes k (take k out) in
    if ltb 0 k && (get_or out k 0 == slash) then shorter else out

-- what join_path prints before it removes slashes
unfoldable pub joined : Bytes → Bytes → Bytes
joined cwd name =
    if get_or name 0 0 == slash
    then name
    else if is_root cwd
    then slash ∷ name
    else cwd ++ (slash ∷ name)

unfoldable pub join_path : Bytes → Bytes → ℕ → Bytes
unfolding joined
join_path cwd name out_sz =
    let out = printed out_sz (joined cwd name) in strip_slashes (length out) out

unfoldable pub path_to_fsname : Bytes → ℕ → Bytes
path_to_fsname canon_path fsname_sz =
    if is_root canon_path then [] else printed fsname_sz (drop 1 canon_path ++ (slash ∷ []))
