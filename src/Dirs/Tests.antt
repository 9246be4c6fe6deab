-- ===== src/Dirs/Tests.antt =====
-- The theorem on fs_dirs.c at a small input.
use cs4440proj3_final.Prelude.{
  ℕ, zero, suc, ◌≡◌, List, ◌+◌, Option, some, Bytes, [], ◌∷◌, refl, arith,
}
use cs4440proj3_final.Text.{scan_long, c_string}
use cs4440proj3_final.Fs.Dirent.{strncmp_eq}
use cs4440proj3_final.Dirs.{join_path, joined, strip_slashes, path_to_fsname}
use cs4440proj3_final.Dirs.Shell.{cmd_cd, cmd_rmdir, not_empty, code_of, is_inside, strcmp_eq}
use cs4440proj3_final.Dirs.Shell.Listing.{listing, cmd_rmdir-keeps}
use cs4440proj3_final.Dirs.Shell.Kept.{cmd_cd-IsCanonical}
use cs4440proj3_final.Dirs.Canonical.{IsCanonical, join_path-IsCanonical}

-- "b//" in "/a"
join_path-IsCanonical_example :
    IsCanonical (join_path (b'/' ∷ b'a' ∷ []) (b'b' ∷ b'/' ∷ b'/' ∷ []) 1024)
join_path-IsCanonical_example =
    join_path-IsCanonical (b'/' ∷ b'a' ∷ []) (b'b' ∷ b'/' ∷ b'/' ∷ []) 1024 refl (omega arith)

-- a server that answers every request with "0 0 \n" and counts the requests
abbrev yes_server : Bytes → ℕ → Option Bytes × ℕ
yes_server request n = (some (b'0' ∷ b' ' ∷ b'0' ∷ b' ' ∷ 10 ∷ []), n + 1)

cmd_cd-IsCanonical_example : IsCanonical (cmd_cd yes_server (b'/' ∷ []) (b'a' ∷ b'/' ∷ []) 0).0.1
cmd_cd-IsCanonical_example =
    cmd_cd-IsCanonical yes_server (b'/' ∷ []) (b'a' ∷ b'/' ∷ []) 0
      (record { absolute = refl; plain = refl })

-- "a/" and "a/b", for a directory "a" that is not empty
abbrev full_names : List Bytes
full_names = (b'a' ∷ b'/' ∷ []) ∷ (b'a' ∷ b'/' ∷ b'b' ∷ []) ∷ []

-- a server that knows two answers and counts the requests
abbrev full_server : Bytes → ℕ → Option Bytes × ℕ
full_server request zero = (some (b'0' ∷ b' ' ∷ b'0' ∷ b' ' ∷ 10 ∷ []), 1)
full_server request (suc n) = (some (listing full_names), n + 2)

cmd_rmdir-keeps_example : cmd_rmdir full_server (b'/' ∷ []) (b'a' ∷ []) 0 ≡ (not_empty, 2)
unfolding join_path joined strip_slashes path_to_fsname code_of scan_long c_string is_inside
    strncmp_eq strcmp_eq
cmd_rmdir-keeps_example =
    cmd_rmdir-keeps full_server (b'a' ∷ b'/' ∷ []) ((b'a' ∷ b'/' ∷ []) ∷ []) [] b'b' [] 0 1 2
      (b'0' ∷ b' ' ∷ b'0' ∷ b' ' ∷ 10 ∷ []) (listing full_names) (b'/' ∷ []) (b'a' ∷ [])
      (omega arith) refl refl (omega arith) refl refl refl refl
      ((omega arith, (refl, (refl, tt))), ((omega arith, (refl, (refl, (refl, tt)))), tt))
