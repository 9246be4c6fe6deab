-- ===== src/Dirs/Shell.antt =====
-- mkdir, cd and rmdir of fs_dirs.c. The filesystem server at the other end of the socket is a
-- parameter: what one request and one recv give, and what it has become.
pub mod Kept
pub mod Listing
use cs4440proj3_final.Prelude.{
  ℕ, zero, suc, ◌-◌, ◌%◌, ◌^◌, Bool, true, false, not, ◌&&◌, ◌||◌, Option, none, some, [], ◌∷◌,
  ◌++◌, Bytes, length, take, ◌==◌, if◌then◌else◌,
}
use cs4440proj3_final.Prelude.Int.{ℤ, pos, negsuc}
use cs4440proj3_final.Text.{newline, space, scan_long, c_string}
use cs4440proj3_final.Fs.Dirent.{strncmp_eq}
use cs4440proj3_final.Dirs.{is_root, join_path, path_to_fsname}

abbrev pub path_buf : ℕ
path_buf = 1024

-- How a command ends: in silence, with a message, or by exit(1).
pub data Ending : Type 0 where
  silent missing root internal unexpected taken absent failed not_empty exited : Ending

-- the 32 bits of an int
abbrev low_bits : ℤ → ℕ
low_bits (pos n) = n % 2 ^ 32
low_bits (negsuc n) = (2 ^ 64 - 1 - n) % 2 ^ 32

-- sscanf(resp, "%d", &code)
unfoldable pub code_of : Bytes → Option ℕ
code_of resp = elim (scan_long (c_string resp)) [ none ↦ none | some (v, rest) ↦ some (low_bits v) ]

-- a command line with a name
abbrev pub name_line : ℕ → Bytes → Bytes
name_line letter fsname = letter ∷ space ∷ (fsname ++ (newline ∷ []))

-- strcmp(a, b) == 0
unfoldable pub strcmp_eq : Bytes → Bytes → Bool
strcmp_eq [] [] = true
strcmp_eq [] (y ∷ b) = false
strcmp_eq (x ∷ a) [] = false
strcmp_eq (x ∷ a) (y ∷ b) = let more = strcmp_eq a b in (x == y) && more

-- what the loop of cmd_rmdir asks of one line of the listing
unfoldable pub is_inside : Bytes → Bytes → Bool
unfolding strcmp_eq
is_inside fsname line = strncmp_eq (length fsname) line fsname && not (strcmp_eq line fsname)

-- The loop over strtok: `line` is the line read so far, backwards; empty lines are skipped.
unfoldable pub some_inside : Bytes → Bytes → Bytes → Bool
unfolding is_inside
some_inside fsname line [] = not (length line == 0) && is_inside fsname line
some_inside fsname line (c ∷ rest) =
    let here = not (length line == 0) && is_inside fsname line in
    let next = some_inside fsname [] rest in
    let more = some_inside fsname (line ++ (c ∷ [])) rest in
    if c == newline then here || next else more

-- fs_simple_cmd gives `none` where it returns -1.
module _ {P : Type 0} (ask : Bytes → P → Option Bytes × P) where
  abbrev mkdir_ending : Option ℕ → Ending
  mkdir_ending none = unexpected
  mkdir_ending (some code) = if code == 0 then silent else if code == 1 then taken else failed

  unfoldable pub request_mkdir : Bytes → P → Ending × P
  request_mkdir fsname p =
      let (resp, p') = ask (name_line b'C' fsname) p in
      elim resp [ none ↦ (exited, p') | some r ↦ (mkdir_ending (code_of r), p') ]

  unfoldable pub cmd_mkdir : Bytes → Bytes → P → Ending × P
  cmd_mkdir cwd arg p =
      let path = join_path cwd arg path_buf in
      let fsname = path_to_fsname path path_buf in
      if length arg == 0
      then (missing, p)
      else if is_root path
      then (root, p)
      else if length fsname == 0
      then (internal, p)
      else request_mkdir fsname p

  -- The ending with the current directory.
  abbrev pub cd_ending : Bytes → Bytes → Option ℕ → Ending × Bytes
  cd_ending cwd path none = (unexpected, cwd)
  cd_ending cwd path (some code) =
      if code == 0
      then (silent, take (path_buf - 1) path)
      else if code == 1
      then (absent, cwd)
      else (failed, cwd)

  unfoldable pub request_cd : Bytes → Bytes → Bytes → P → (Ending × Bytes) × P
  request_cd cwd path fsname p =
      let (resp, p') = ask (name_line b'R' fsname) p in
      elim resp [ none ↦ ((exited, cwd), p') | some r ↦ (cd_ending cwd path (code_of r), p') ]

  unfoldable pub cmd_cd : Bytes → Bytes → P → (Ending × Bytes) × P
  cmd_cd cwd arg p =
      let path = join_path cwd arg path_buf in
      let fsname = path_to_fsname path path_buf in
      if length arg == 0
      then ((missing, cwd), p)
      else if is_root path
      then ((silent, b'/' ∷ []), p)
      else if length fsname == 0
      then ((internal, cwd), p)
      else request_cd cwd path fsname p

  abbrev delete_ending : Option ℕ → Ending
  delete_ending none = unexpected
  delete_ending (some code) = if code == 0 then silent else if code == 1 then absent else failed

  unfoldable pub request_delete : Bytes → P → Ending × P
  request_delete fsname p =
      let (resp, p') = ask (name_line b'D' fsname) p in
      elim resp [ none ↦ (exited, p') | some r ↦ (delete_ending (code_of r), p') ]

  -- from the listing on
  unfoldable pub delete_empty : Bytes → P → Ending × P
  delete_empty fsname p =
      let (resp, p') = ask (name_line b'L' (b'0' ∷ [])) p in
      elim resp [
        | none ↦ (exited, p')
        | some r ↦
            if some_inside fsname [] (c_string r) then (not_empty, p') else request_delete fsname p'
      ]

  unfoldable pub rmdir_found : Bytes → Option ℕ → P → Ending × P
  rmdir_found fsname none p = (unexpected, p)
  rmdir_found fsname (some code) p =
      if code == 1
      then (absent, p)
      else if not (code == 0)
      then (failed, p)
      else delete_empty fsname p

  unfoldable pub request_rmdir : Bytes → P → Ending × P
  request_rmdir fsname p =
      let (resp, p') = ask (name_line b'R' fsname) p in
      elim resp [ none ↦ (exited, p') | some r ↦ rmdir_found fsname (code_of r) p' ]

  unfoldable pub cmd_rmdir : Bytes → Bytes → P → Ending × P
  cmd_rmdir cwd arg p =
      let path = join_path cwd arg path_buf in
      let fsname = path_to_fsname path path_buf in
      if length arg == 0
      then (missing, p)
      else if is_root path
      then (root, p)
      else if length fsname == 0
      then (internal, p)
      else request_rmdir fsname p
