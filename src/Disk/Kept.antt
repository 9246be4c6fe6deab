-- ===== src/Disk/Kept.antt =====
-- The handlers of disk_server.c keep the server sound.
use cs4440proj3_final.Prelude.{
  Bytes, arith, inl, inr, length-splice, Bool-cases, Option-cases, ◌||◌, not,
}
use cs4440proj3_final.Prelude.Int.{ℤ}
use cs4440proj3_final.Net.{read_exact}
use cs4440proj3_final.Disk.{
  Session, blk_ptr, validate_cs, seek, handle_R, handle_W, handle_I, store_block, padded,
  fits_block, nat_of,
}
use cs4440proj3_final.Disk.Bounds.{IsSound}
use cs4440proj3_final.Disk.Blocks.{SameDisk-IsSound, seek-SameDisk}

-- Soundness is kept whatever the arguments are and however the connection ends.
module _ (s : Session) (v : IsSound s.server) where
  handle_I-IsSound : IsSound (handle_I s).1.server
  unfolding handle_I
  handle_I-IsSound = v

  pub handle_R-IsSound : (c sn : ℤ) → IsSound (handle_R c sn s).1.server
  unfolding handle_R
  handle_R-IsSound c sn = ground (arith, SameDisk-IsSound (seek-SameDisk c s.server) v)

store_block-IsSound :
    (s : Session) (c sn : ℤ) (buf : Bytes)
    → IsSound s.server
    → IsSound (store_block c sn buf s).1.server
unfolding store_block
store_block-IsSound s c sn buf v =
    let moved = seek c s.server in
    ground (
      arith,
      SameDisk-IsSound (seek-SameDisk c s.server) v,
      length-splice (blk_ptr moved c sn) buf moved.image,
    )

pub handle_W-IsSound :
    (s : Session) (c sn l : ℤ) → IsSound s.server → IsSound (handle_W c sn l s).1.server
unfolding handle_W
handle_W-IsSound s c sn l v =
    elim (Bool-cases (not (validate_cs s.server c sn) || not (fits_block l))) [
      | inl bad ↦ rw bad v
      | inr good ↦ elim (Option-cases (read_exact (nat_of l) s.conn).0) [
        | inl short ↦ rw (good, short) v
        | inr (bytes, got) ↦ rw (good, got) (store_block-IsSound _ c sn (padded bytes) v)
      ]
    ]
