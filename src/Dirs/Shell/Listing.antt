-- ===== src/Dirs/Shell/Listing.antt =====
-- rmdir of fs_dirs.c and the listing of the filesystem server.
use cs4440proj3_final.Prelude.{
  ℕ, ◌<◌, ◌≡◌, refl, ap, ◌∙◌, Bool, true, false, not, ◌&&◌, ◌||◌, Option, some, List, [], ◌∷◌, ◌++◌,
  Bytes, length, All, ◌==◌, arith,
}
use mathlib.Core.List.{append_assoc, append-nil}
use cs4440proj3_final.Text.{newline, c_string}
use cs4440proj3_final.Text.Lines.{Plain}
use cs4440proj3_final.Fs.Dirent.{strncmp_eq}
use cs4440proj3_final.Dirs.{is_root, join_path, path_to_fsname}
use cs4440proj3_final.Dirs.Shell.{
  strcmp_eq, path_buf, code_of, name_line, not_empty, is_inside, some_inside, delete_empty,
  rmdir_found, request_rmdir, cmd_rmdir,
}

-- The listing that cmd_list of fs_server.c prints in brief: a name in each line.
abbrev pub listing : List Bytes → Bytes
listing [] = []
listing (name ∷ names) = name ++ (newline ∷ listing names)

-- some name of the list is inside the directory
abbrev any_inside : Bytes → List Bytes → Bool
any_inside fsname [] = false
any_inside fsname (name ∷ names) = is_inside fsname name || any_inside fsname names

-- a name of a file
abbrev pub IsName : Bytes → Type 0
IsName name = (0 < length name) × Plain name

inside-line :
    (fsname line name rest : Bytes)
    → Plain name
    → some_inside fsname line (name ++ (newline ∷ rest)) ≡ (
        (not (length (line ++ name) == 0) && is_inside fsname (line ++ name))
        || some_inside fsname [] rest)
unfolding some_inside
inside-line fsname line [] rest p = rw append-nil refl
inside-line fsname line (c ∷ name) rest p = rw p.0 (
    inside-line fsname (line ++ (c ∷ [])) name rest p.1
    ∙ ap (λ l. (not (length l == 0) && is_inside fsname l) || some_inside fsname [] rest)
        (append_assoc line (c ∷ []) name))

-- The loop over the lines of a listing finds exactly the names inside.
some_inside-listing :
    (fsname : Bytes) (names : List Bytes)
    → All IsName names
    → some_inside fsname [] (listing names) ≡ any_inside fsname names
unfolding some_inside
some_inside-listing fsname [] h = refl
some_inside-listing fsname (name ∷ names) h =
    let some_name : (length name == 0) ≡ false = ground (arith, h.0.0) in
    inside-line fsname [] name (listing names) h.0.1
    ∙ rw (some_name, some_inside-listing fsname names h.1) refl

strncmp-prefix : (a more : Bytes) → strncmp_eq (length a) (a ++ more) a ≡ true
unfolding strncmp_eq
strncmp-prefix [] more = refl
strncmp-prefix (c ∷ a) more = ground (arith, strncmp-prefix a more)

strcmp-longer : (a : Bytes) (x : ℕ) (rest : Bytes) → strcmp_eq (a ++ (x ∷ rest)) a ≡ false
unfolding strcmp_eq
strcmp-longer [] x rest = refl
strcmp-longer (c ∷ a) x rest = ground (arith, strcmp-longer a x rest)

-- A longer name that begins with the directory's name is inside.
longer-inside :
    (fsname : Bytes) (x : ℕ) (rest : Bytes) → is_inside fsname (fsname ++ (x ∷ rest)) ≡ true
unfolding is_inside
longer-inside fsname x rest =
    rw (strncmp-prefix fsname (x ∷ rest), strcmp-longer fsname x rest) refl

any_inside-among :
    (fsname name : Bytes) (before after : List Bytes)
    → is_inside fsname name ≡ true
    → any_inside fsname (before ++ (name ∷ after)) ≡ true
any_inside-among fsname name [] after h = rw h refl
any_inside-among fsname name (a ∷ before) after h =
    ground (arith, any_inside-among fsname name before after h)

module _ {P : Type 0} (ask : Bytes → P → Option Bytes × P) (fsname : Bytes)
    (before after : List Bytes) (x : ℕ) (rest : Bytes) (p p1 p2 : P) (exists listed : Bytes) where
  delete_empty-keeps :
      ask (name_line b'L' (b'0' ∷ [])) p1 ≡ (some listed, p2)
      → some_inside fsname [] (c_string listed) ≡ true
      → delete_empty ask fsname p1 ≡ (not_empty, p2)
  unfolding delete_empty
  delete_empty-keeps lists c =
      rw (delete_empty, lists, c) (ap (λ (q : Option Bytes × P). (not_empty, q.1)) lists)

  request_rmdir-found :
      ask (name_line b'R' fsname) p ≡ (some exists, p1)
      → code_of exists ≡ some 0
      → request_rmdir ask fsname p ≡ delete_empty ask fsname p1
  unfolding request_rmdir rmdir_found
  request_rmdir-found found zero_code =
      rw (request_rmdir, found, zero_code)
        (ap (λ (q : Option Bytes × P). rmdir_found ask fsname (some 0) q.1) found)

  -- the listed names, of which one is longer than the directory's name and begins with it
  abbrev names : List Bytes
  names = before ++ ((fsname ++ (x ∷ rest)) ∷ after)

  -- If the marker of the directory exists, and the one recv that reads the listing of the filesystem
  -- server gets it whole, with a name in it that is longer than the directory's and begins with it,
  -- rmdir says that the directory is not empty, and has sent no more than the two requests for the
  -- marker and the listing: nothing is deleted.
  pub cmd_rmdir-keeps :
      (cwd arg : Bytes)
      → 0 < length arg
      → is_root (join_path cwd arg path_buf) ≡ false
      → path_to_fsname (join_path cwd arg path_buf) path_buf ≡ fsname
      → 0 < length fsname
      → ask (name_line b'R' fsname) p ≡ (some exists, p1)
      → code_of exists ≡ some 0
      → ask (name_line b'L' (b'0' ∷ [])) p1 ≡ (some listed, p2)
      → c_string listed ≡ listing names
      → All IsName names
      → cmd_rmdir ask cwd arg p ≡ (not_empty, p2)
  unfolding cmd_rmdir
  cmd_rmdir-keeps cwd arg some_arg not_root same some_fsname found zero_code lists is_listing
        plain =
      let a : (length arg == 0) ≡ false = ground arith in
      let b : (length fsname == 0) ≡ false = ground arith in
      let c : some_inside fsname [] (c_string listed) ≡ true =
        ap (some_inside fsname []) is_listing
        ∙ some_inside-listing fsname names plain
        ∙ any_inside-among fsname (fsname ++ (x ∷ rest)) before after
            (longer-inside fsname x rest) in
      rw (same, a, not_root, b) (request_rmdir-found found zero_code ∙ delete_empty-keeps lists c)
