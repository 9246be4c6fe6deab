-- ===== src/Disk/Tests.antt =====
-- The theorems on disk_server.c at small inputs.
use cs4440proj3_final.Prelude.{
  ◌<◌, ◌*◌, ℕ, ◌+◌, ◌≤◌, ◌≡◌, refl, inl, true, some, [], ◌∷◌, ◌++◌, Bytes, length, replicate, arith,
  length-replicate,
}
use cs4440proj3_final.Prelude.Int.{pos}
use cs4440proj3_final.Text.{request}
use cs4440proj3_final.Disk.{Server, Session, resize, blk_ptr, total_bytes, map_file, boot}
use cs4440proj3_final.Disk.Bounds.{IsSound, blk_ptr_in_bounds, boot-IsSound, boot-wraps}
use cs4440proj3_final.Disk.Blocks.{at}
use cs4440proj3_final.Disk.Serve.{serve, serve_round}
use cs4440proj3_final.Disk.Serve.Requests.{serve_round-refuses}
use cs4440proj3_final.Disk.Serve.Total.{serve_total}

-- two cylinders of two sectors
abbrev tiny : Server
tiny = record {
  cyl = 2;
  sec = 2;
  track_us = pos 1500000;
  image = replicate 512 7;
  head_cyl = pos 0;
  naps = [];
}

abbrev tiny-IsSound : IsSound tiny
tiny-IsSound = record {
  fits = omega arith;
  mapped = length-replicate {A = ℕ} 512 7;
  sectors = omega arith;
  cylinders = omega arith;
}

-- "W 1 1 3" with its bytes, then "R 1 1"
abbrev stream : Bytes
stream = request b'W' (1 ∷ 1 ∷ 3 ∷ []) ++ (b'a' ∷ b'b' ∷ b'c' ∷ request b'R' (1 ∷ 1 ∷ []))

serve_total_example : (s' : Session) × (serve (at tiny stream []) ≡ some s') × IsSound s'.server
serve_total_example = serve_total (at tiny stream []) tiny-IsSound

-- "W 2 0 3" for a disk of two cylinders, with "I\n" among the bytes behind it
serve_round-refuses_example :
    serve_round (at tiny (request b'W' (2 ∷ 0 ∷ 2 ∷ []) ++ (b'I' ∷ 10 ∷ [])) [])
    ≡ (true, at tiny (b'I' ∷ 10 ∷ []) (48 ∷ []))
serve_round-refuses_example =
    serve_round-refuses tiny (b'I' ∷ 10 ∷ []) [] 2 0 2 (omega arith) (omega arith) (omega arith)
      (inl (omega arith))

blk_ptr_in_bounds_example :
    (blk_ptr tiny (pos 1) (pos 1) ≡ 384) × (blk_ptr tiny (pos 1) (pos 1) + 128 ≤ length tiny.image)
blk_ptr_in_bounds_example = blk_ptr_in_bounds 1 1 tiny-IsSound (omega arith) (omega arith)

abbrev booted : Server
booted = record {
  cyl = 1;
  sec = 2;
  track_us = pos 10;
  image = resize 256 (5 ∷ []);
  head_cyl = pos 0;
  naps = [];
}

boot-IsSound_example :
    IsSound booted × (pos 1 ≡ pos 1) × (pos 2 ≡ pos 2) × (true ≡ true) × (true ≡ true)
unfolding boot map_file total_bytes
boot-IsSound_example =
    boot-IsSound (pos 1) (pos 2) (pos 10) (some (5 ∷ [])) true true booted refl (omega arith)

-- 2^57 + 1 cylinders of one sector: 128 bytes are mapped
abbrev huge : Server
huge = record {
  cyl = 144115188075855873;
  sec = 1;
  track_us = pos 10;
  image = resize 128 [];
  head_cyl = pos 0;
  naps = [];
}

boot-wraps_example : length huge.image < 144115188075855873 * 1 * 128
unfolding boot map_file total_bytes
boot-wraps_example =
    boot-wraps (pos 144115188075855873) (pos 1) (pos 10) (some []) true true huge refl (omega arith)
