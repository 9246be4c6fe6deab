-- ===== src/Fs/Dirent/Packing.antt =====
-- A directory entry comes back from the bytes that it was packed into, wherever in a sector it lies.
use cs4440proj3_final.Prelude.{
  ℕ, ◌+◌, ◌≤◌, ◌<◌, ◌≡◌, refl, ap, ◌∙◌, some, [], ◌∷◌, Bytes, arith, length, get_elem?, get_or,
  drop, replicate, slice, splice, overwrite, read_field, length-layers, slice-overwrite,
  drop-splice, get_or-slice, set_same, length-drop,
}
use cs4440proj3_final.Fs.Words.{u32_mod, to_le, of_le, length-to_le, of_le-to_le_4}
use cs4440proj3_final.Fs.Dirent.{Dirent, dirent_pack, dirent_unpack}

-- An entry whose fields fit theirs; its name ends with a NUL inside the array.
pub record IsPackable (e : Dirent) : Type 0 where
  pub array : length e.name ≡ 32
  pub terminated : get_elem? e.name 31 ≡ some 0
  pub len_fits : e.len < u32_mod
  pub first_fits : e.first < u32_mod

pub length-dirent_pack : (e : Dirent) → length (dirent_pack e) ≡ 64
unfolding dirent_pack
length-dirent_pack e =
    length-layers
      ((40, e.used ∷ []) ∷ (36, to_le 4 e.first) ∷ (32, to_le 4 e.len) ∷ (0, e.name) ∷ [])
      (replicate 64 0)

-- The fields, read from any array that begins with the packed entry.
module _ (e : Dirent) (v : IsPackable e) (rest : Bytes) (room : 64 ≤ length rest) where
  laid : Bytes
  laid = overwrite (dirent_pack e) rest

  front : (o n : ℕ) → o + n ≤ 64 → slice o n laid ≡ slice o n (dirent_pack e)
  unfolding laid
  front o n h =
      slice-overwrite (dirent_pack e) rest o n (omega (arith, length-dirent_pack e))
        (omega (arith, length-dirent_pack e))

  abbrev name_field : ℕ × Bytes
  name_field = (0, e.name)

  abbrev len_field : ℕ × Bytes
  len_field = (32, to_le 4 e.len)

  abbrev first_field : ℕ × Bytes
  first_field = (36, to_le 4 e.first)

  abbrev used_field : ℕ × Bytes
  used_field = (40, e.used ∷ [])

  name_back : slice 0 32 laid ≡ e.name
  unfolding dirent_pack
  name_back =
      front 0 32 (omega arith)
      ∙ read_field (used_field ∷ first_field ∷ len_field ∷ []) 0 32 e.name [] (replicate 64 0)
          v.array (omega (arith, length-to_le)) (omega arith)

  len_back : of_le (slice 32 4 laid) ≡ e.len
  unfolding dirent_pack
  len_back =
      ap of_le (
        front 32 4 (omega arith)
        ∙ read_field (used_field ∷ first_field ∷ []) 32 4 (to_le 4 e.len) (name_field ∷ [])
            (replicate 64 0) (length-to_le 4 e.len) (omega (arith, length-to_le)) (omega arith))
      ∙ of_le-to_le_4 e.len v.len_fits

  first_back : of_le (slice 36 4 laid) ≡ e.first
  unfolding dirent_pack
  first_back =
      ap of_le (
        front 36 4 (omega arith)
        ∙ read_field (used_field ∷ []) 36 4 (to_le 4 e.first) (len_field ∷ name_field ∷ [])
            (replicate 64 0) (length-to_le 4 e.first) (omega (arith, length-to_le)) (omega arith))
      ∙ of_le-to_le_4 e.first v.first_fits

  used_back : get_or laid 40 0 ≡ e.used
  unfolding dirent_pack
  used_back = get_or-slice laid 40 e.used 0 (
      front 40 1 (omega arith)
      ∙ read_field [] 40 1 (e.used ∷ []) (first_field ∷ len_field ∷ name_field ∷ [])
          (replicate 64 0) refl tt (omega arith))

  unpack-laid : dirent_unpack laid ≡ e
  unfolding dirent_unpack
  unpack-laid =
      ground (arith, name_back, len_back, first_back, used_back, set_same e.name 31 0 v.terminated)

-- An entry whose name is a terminated array of 32 bytes and whose numbers fit 32 bits is read back
-- by dirent_unpack from where dirent_pack put it in a sector.
pub dirent_unpack-dirent_pack :
    (e : Dirent) (off : ℕ) (blk : Bytes)
    → IsPackable e
    → off + 64 ≤ length blk
    → dirent_unpack (drop off (splice off (dirent_pack e) blk)) ≡ e
dirent_unpack-dirent_pack e off blk v room =
    ap dirent_unpack (drop-splice off (dirent_pack e) blk)
    ∙ unfold laid in unpack-laid e v (drop off blk) (omega (arith, length-drop off blk))
