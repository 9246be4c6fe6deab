-- ===== src/Fs/Dirent.antt =====
-- Directory entries of fs_server.c, and names as C strings.
pub mod Packing
pub mod Names
use cs4440proj3_final.Prelude.{
  ℕ, zero, suc, ◌-◌, Bool, true, false, [], ◌∷◌, ◌++◌, Bytes, slice, splice, replicate, length,
  take, set, get_or, ◌==◌, if◌then◌else◌,
}
use cs4440proj3_final.Fs.Words.{to_le, of_le}

abbrev pub max_name : ℕ
max_name = 32

-- dirent_fs; `name` is the whole array of 32 bytes. The padding is always zero and is not kept.
pub record Dirent : Type 0 where
  pub name : Bytes
  pub len : ℕ
  pub first : ℕ
  pub used : ℕ

unfoldable pub dirent_pack : Dirent → Bytes
dirent_pack e =
    splice 40 (e.used ∷ [])
      (splice 36 (to_le 4 e.first) (splice 32 (to_le 4 e.len) (splice 0 e.name (replicate 64 0))))

unfoldable pub dirent_unpack : Bytes → Dirent
dirent_unpack src = record {
  name = set (slice 0 max_name src) (max_name - 1) 0;
  len = of_le (slice 32 4 src);
  first = of_le (slice 36 4 src);
  used = get_or src 40 0;
}

-- strncmp(a, b, n) == 0; behind the end of a list stands the NUL of the string.
unfoldable pub strncmp_eq : ℕ → Bytes → Bytes → Bool
strncmp_eq zero a b = true
strncmp_eq (suc n) [] [] = true
strncmp_eq (suc n) [] (y ∷ b) = y == 0
strncmp_eq (suc n) (x ∷ a) [] = x == 0
strncmp_eq (suc n) (x ∷ a) (y ∷ b) =
    let more = strncmp_eq n a b in if x == y then (if x == 0 then true else more) else false

-- memset(name, 0, 32); strncpy(name, s, 31)
unfoldable pub name_array : Bytes → Bytes
name_array s = take (max_name - 1) s ++ replicate (max_name - length (take (max_name - 1) s)) 0
