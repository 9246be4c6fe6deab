-- ===== src/Disk/Arm.antt =====
-- The waiting of the arm in disk_server.c.
use cs4440proj3_final.Prelude.{
  ℕ, ◌+◌, ◌*◌, ◌/◌, ◌%◌, ◌<◌, ◌≡◌, refl, List, [], ◌∷◌, ◌==◌, true, false, if◌then◌else◌, arith,
  All,
}
use cs4440proj3_final.Prelude.Int.{ℤ}
use cs4440proj3_final.Disk.{Timespec, Server, delay, labs_diff, sleep_tracks}

-- what nanosleep accepts
abbrev Acceptable : Timespec → Type 0
Acceptable t = t.tv_nsec < 1000000000

abbrev nanoseconds : List Timespec → ℕ
nanoseconds [] = 0
nanoseconds (t ∷ naps) = t.tv_sec * 1000000000 + t.tv_nsec + nanoseconds naps

nap_lem : (total : ℕ) → total / 1000000 * 1000000000 + total % 1000000 * 1000 ≡ total * 1000
nap_lem total = omega arith

-- Moving the arm adds at most one call of nanosleep, whose argument it accepts, and in all waits the
-- microseconds that the distance takes; it changes nothing else.
sleep_tracks_lem :
    (from to : ℤ) (srv : Server)
    → All Acceptable srv.naps
    → All Acceptable (sleep_tracks from to srv).naps
      × (nanoseconds (sleep_tracks from to srv).naps
          ≡ nanoseconds srv.naps + delay (labs_diff from to) srv.track_us * 1000)
      × (sleep_tracks from to srv ≡ record srv { naps = (sleep_tracks from to srv).naps })
unfolding sleep_tracks
sleep_tracks_lem from to srv h =
    let total : ℕ = delay (labs_diff from to) srv.track_us in
    elim (total == 0)
        as (λ t.
          (total == 0) ≡ t
          → All Acceptable
              (if t then srv else record srv {
                naps =
                    record { tv_sec = total / 1000000; tv_nsec = total % 1000000 * 1000 }
                    ∷ srv.naps;
              }).naps
            × (nanoseconds
                  (if t then srv else record srv {
                    naps =
                        record { tv_sec = total / 1000000; tv_nsec = total % 1000000 * 1000 }
                        ∷ srv.naps;
                  }).naps
                ≡ nanoseconds srv.naps + total * 1000)
            × ((if t then srv else record srv {
              naps =
                  record { tv_sec = total / 1000000; tv_nsec = total % 1000000 * 1000 } ∷ srv.naps;
            })
                ≡ record srv {
                  naps =
                      (if t then srv else record srv {
                        naps =
                            record { tv_sec = total / 1000000; tv_nsec = total % 1000000 * 1000 }
                            ∷ srv.naps;
                      }).naps;
                })) [
                  | true ↦ λ e. (h, ground arith, refl)
                  | false ↦ λ e. ((omega arith, h), omega (arith, nap_lem total), refl)
                ]
      refl
