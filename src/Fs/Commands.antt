-- ===== src/Fs/Commands.antt =====
-- The handlers of the commands of fs_server.c, each from the lock of the mutex to its unlock. What is
-- written to the client is the result.
pub mod Creating
pub mod Reading
pub mod Writing
pub mod Replacing
use cs4440proj3_final.Prelude.{
  ℕ, zero, suc, ◌+◌, ◌-◌, ◌%◌, Bool, true, false, not, ◌||◌, Option, none, some, List, [], ◌∷◌,
  ◌++◌, Bytes, splice, replicate, length, min, leb, ◌==◌, if◌then◌else◌,
}
use cs4440proj3_final.Text.{print_dec, newline, space, c_string}
use cs4440proj3_final.Fs.Exec.{Res, ok, io, fault, waits, Exec, pure, raise, ◌>>=◌, ◌>>◌}
use cs4440proj3_final.Fs.Words.{u32_mod}
use cs4440proj3_final.Fs.Link.{Link, disk_read_idx, disk_write_idx}
use cs4440proj3_final.Fs.Layout.{Layout, Geometry, compute_layout, super_pack, super_load}
use cs4440proj3_final.Fs.Dirent.{Dirent, max_name, name_array}
use cs4440proj3_final.Fs.Fat.{fat_eof, fat_reserved, fat_load, fat_flush}
use cs4440proj3_final.Fs.Directory.{
  dir_read_entry, dir_write_entry, dir_find_by_name, dir_find_free,
}
use cs4440proj3_final.Fs.File.{read_whole_file, write_whole_file, release, skip}
use cs4440proj3_final.Fs.State.{Fs, FatCache, on_link, put_table}

abbrev pub code : ℕ → Bytes
code c = c ∷ newline ∷ []

-- The reply of a handler: that of `m`, or `otherwise` where the disk failed.
abbrev pub reply_of : Bytes → Res Bytes → Res Bytes
reply_of otherwise (ok reply) = ok reply
reply_of otherwise io = ok otherwise
reply_of otherwise fault = fault
reply_of otherwise waits = waits

abbrev pub or_reply : Bytes → Exec Fs Bytes → Exec Fs Bytes
or_reply otherwise m s = let (r, s') = m s in (reply_of otherwise r, s')

abbrev pub geometry : Fs → Geometry
geometry s = record { cyl = s.link.cyl; sec = s.link.sec }

unfoldable pub clear_sectors : ℕ → ℕ → Exec Fs (Unit {0})
clear_sectors zero i = pure tt
clear_sectors (suc k) i = do
  on_link (disk_write_idx (i % u32_mod) (replicate 128 0))
  clear_sectors k (i + 1)

-- the last sector of the directory, in uint32_t arithmetic
abbrev pub meta_end : Layout → ℕ
meta_end l = (l.dir_start + l.dir_sectors + u32_mod - 1) % u32_mod

-- for (i = 0; i <= meta_end && i < total_blocks; i++) v[i] = FAT_RESERVED
unfoldable pub reserve : Layout → Exec Fs (Unit {0})
reserve l s = (
  ok tt,
  put_table (splice 0 (replicate (min (meta_end l + 1) l.total_blocks) fat_reserved) s.fat.v) s,
)

abbrev set_layout : Layout → Exec Fs (Unit {0})
set_layout l s = (ok tt, record s { layout = l })

unfoldable pub format_fs : Layout → Geometry → Exec Fs (Unit {0})
format_fs l d = do
  set_layout l
  on_link (disk_write_idx 0 (super_pack d l))
  clear_sectors l.fat_sectors l.fat_start
  fat_load
  reserve l
  fat_flush
  clear_sectors l.dir_sectors l.dir_start

abbrev reset_fat : Exec Fs (Unit {0})
reset_fat s = (ok tt, record s { fat = record { v = []; loaded = false } })

abbrev set_formatted : Exec Fs (Unit {0})
set_formatted s = (ok tt, record s { formatted = true })

unfoldable pub cmd_format : Exec Fs Bytes
cmd_format s =
    or_reply (code b'2')
      (do
        set_layout (compute_layout (geometry s))
        reset_fat
        format_fs (compute_layout (geometry s)) (geometry s)
        set_formatted
        pure (code b'0'))
      s

-- What every other handler begins with: an unformatted disk has the reply `bare`.
abbrev pub formatted_or : Bytes → Exec Fs Bytes → Exec Fs Bytes
formatted_or bare m s = if s.formatted then m s else (ok bare, s)

abbrev flat : {A : Type 0} → Res (Option A) → Res (Option A)
flat io = ok none
flat r = r

-- dir_find_by_name where every result but 0 counts as not found
unfoldable pub found : Bytes → Exec Fs (Option (ℕ × Dirent))
found name s = let (r, s') = dir_find_by_name s.layout name s in (flat r, s')

-- the entry that cmd_create writes
abbrev pub new_entry : Bytes → Dirent
new_entry name = record { name = name_array name; len = 0; first = fat_eof; used = 1 }

-- dir_write_entry in the layout of the server
abbrev put_entry : ℕ → Dirent → Exec Fs (Unit {0})
put_entry slot e s = dir_write_entry s.layout slot e s

abbrev pub free_slot : Exec Fs (Option ℕ)
free_slot s = dir_find_free s.layout s

unfoldable pub create_in : Bytes → Option ℕ → Exec Fs Bytes
create_in name none = pure (code b'2')
create_in name (some slot) = do put_entry slot (new_entry name); pure (code b'0')

unfoldable pub create_new : Bytes → Option (ℕ × Dirent) → Exec Fs Bytes
create_new name (some _) = pure (code b'1')
create_new name none = do slot ← free_slot; create_in name slot

unfoldable pub cmd_create : Bytes → Exec Fs Bytes
cmd_create name =
    if (length name == 0) || leb max_name (length name)
    then pure (code b'2')
    else formatted_or (code b'2')
        (or_reply (code b'2') (do fat_load; o ← found name; create_new name o))

abbrev pub blank : Dirent
blank = record { name = replicate max_name 0; len = 0; first = 0; used = 0 }

unfoldable pub delete_found : Option (ℕ × Dirent) → Exec Fs Bytes
delete_found none = pure (code b'1')
delete_found (some (slot, e)) = do
  if not (e.first == fat_eof) then release e.first else skip
  fat_flush
  put_entry slot blank
  pure (code b'0')

unfoldable pub cmd_delete : Bytes → Exec Fs Bytes
cmd_delete name =
    formatted_or (code b'2') (or_reply (code b'2') (do fat_load; o ← found name; delete_found o))

-- the line of an entry
unfoldable pub list_line : Bool → Dirent → Bytes
list_line brief e =
    if brief
    then c_string e.name ++ (newline ∷ [])
    else c_string e.name ++ (space ∷ (print_dec e.len ++ (newline ∷ [])))

-- the lines from slot `i` on; a failure of the disk ends the listing where it is
unfoldable pub list_from : Bool → ℕ → ℕ → Exec Fs Bytes
list_from brief zero i = pure []
list_from brief (suc k) i = or_reply [] (do
  e ← (λ s. dir_read_entry s.layout i s)
  rest ← list_from brief k (i + 1)
  pure (if e.used == 0 then rest else list_line brief e ++ rest))

-- "(unformatted)\n"
abbrev pub unformatted : Bytes
unformatted =
    b'(' ∷ b'u' ∷ b'n' ∷ b'f' ∷ b'o' ∷ b'r' ∷ b'm' ∷ b'a' ∷ b't' ∷ b't' ∷ b'e' ∷ b'd' ∷ b')'
    ∷ newline ∷ []

unfoldable pub cmd_list : Bool → Exec Fs Bytes
cmd_list brief = formatted_or unformatted (λ s. list_from brief s.layout.dir_entries 0 s)

-- "1 0 \n" and "2 0 \n"
abbrev pub no_data : ℕ → Bytes
no_data c = c ∷ space ∷ b'0' ∷ space ∷ newline ∷ []

-- "0 %u ", the bytes, a newline
unfoldable pub read_reply : ℕ → Bytes → Bytes
read_reply len bytes = b'0' ∷ space ∷ (print_dec len ++ (space ∷ (bytes ++ (newline ∷ []))))

unfoldable pub read_found : Option (ℕ × Dirent) → Exec Fs Bytes
read_found none = pure (no_data b'1')
read_found (some (slot, e)) = do bytes ← read_whole_file e; pure (read_reply e.len bytes)

unfoldable pub cmd_read : Bytes → Exec Fs Bytes
cmd_read name =
    formatted_or (no_data b'1')
      (or_reply (no_data b'2') (do fat_load; o ← found name; read_found o))

unfoldable pub write_done : ℕ → Option Dirent → Exec Fs Bytes
write_done slot none = pure (code b'2')
write_done slot (some e) = do fat_flush; put_entry slot e; pure (code b'0')

unfoldable pub write_found : Bytes → Option (ℕ × Dirent) → Exec Fs Bytes
write_found bytes none = pure (code b'1')
write_found bytes (some (slot, e)) = do
  o ← (λ s. write_whole_file s.layout e bytes s)
  write_done slot o

-- `bytes` are the `len` bytes that were read off the client's connection.
unfoldable pub cmd_write : Bytes → Bytes → Exec Fs Bytes
cmd_write name bytes =
    formatted_or (code b'2')
      (or_reply (code b'2') (do fat_load; o ← found name; write_found bytes o))

-- The superblock that a client's thread finds when it connects is adopted, into the connection too.
abbrev adopt : Option (Geometry × Layout) → Exec Fs (Unit {0})
adopt none s = (ok tt, s)
adopt (some (d, l)) s = (
  ok tt,
  record s { link = record s.link { cyl = d.cyl; sec = d.sec }; layout = l; formatted = true },
)

unfoldable pub try_load_super : Exec Fs (Unit {0})
try_load_super s =
    let (r, s') = on_link (disk_read_idx 0) s in
    elim r [
      | ok blk ↦ adopt (super_load blk) s'
      | io ↦ (ok tt, s')
      | fault ↦ (fault, s')
      | waits ↦ (waits, s')
    ]
