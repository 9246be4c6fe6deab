-- ===== src/Disk/Serve/Total.antt =====
-- Every connection of disk_server.c comes to its end, and leaves a sound server behind.
use mathlib.Core.Bool.{false≢true}
use cs4440proj3_final.Prelude.{
  ℕ, zero, suc, ◌+◌, ◌-◌, ◌≤◌, ◌<◌, ◌≡◌, refl, inl, inr, Bool, true, false, Option, none, some,
  List, [], ◌∷◌, Bytes, length, ◌==◌, ◌||◌, if◌then◌else◌, arith, Bool-cases, length-drop,
}
use cs4440proj3_final.Prelude.Int.{ℤ}
use cs4440proj3_final.Text.{newline}
use cs4440proj3_final.Net.{Conn, readline, write_all, read_exact, line_of}
use cs4440proj3_final.Disk.{Session, handle_I, handle_R, handle_W, store_block}
use cs4440proj3_final.Disk.Bounds.{IsSound}
use cs4440proj3_final.Disk.Kept.{handle_R-IsSound, handle_W-IsSound}
use cs4440proj3_final.Disk.Serve.{
  max_line, scan_longs, on_R, on_W, serve_line, serve_round, serve_loop, serve,
}

-- A line and what is behind it make up the stream.
pub length-line_of :
    (room : ℕ) (s : Bytes) → length (line_of room s).0 + length (line_of room s).1 ≡ length s
unfolding line_of
length-line_of zero s = omega arith
length-line_of (suc room) [] = refl
length-line_of (suc room) (c ∷ s) = ground (arith, length-line_of room s)

-- what is left to be read
abbrev left : Session → ℕ
left s = length s.conn.input

left-write_all : (b : Bytes) (c : Conn) → length (write_all b c).1.input ≡ length c.input
unfolding write_all
left-write_all b c = ground arith

left-read_exact : (n : ℕ) (c : Conn) → length (read_exact n c).1.input ≤ length c.input
unfolding read_exact
left-read_exact n c = ground (arith, length-drop n c.input)

-- What a handler may do to the session.
record Keeps (s s' : Session) : Type 0 where
  sound : IsSound s.server → IsSound s'.server
  left_le : left s' ≤ left s

handle_I-Keeps : (s : Session) → Keeps s (handle_I s).1
unfolding handle_I
handle_I-Keeps s = record { sound = λ v. v; left_le = grind (arith, left-write_all) }

left-handle_R : (s : Session) (c sn : ℤ) → left (handle_R c sn s).1 ≤ left s
unfolding handle_R
left-handle_R s c sn = grind (arith, left-write_all)

left-store_block : (s : Session) (c sn : ℤ) (buf : Bytes) → left (store_block c sn buf s).1 ≤ left s
unfolding store_block
left-store_block s c sn buf = grind (arith, left-write_all)

left-handle_W : (s : Session) (c sn l : ℤ) → left (handle_W c sn l s).1 ≤ left s
unfolding handle_W
left-handle_W s c sn l = grind (arith, left-write_all, left-read_exact, left-store_block)

handle_R-Keeps : (s : Session) (c sn : ℤ) → Keeps s (handle_R c sn s).1
handle_R-Keeps s c sn = record {
  sound = λ v. handle_R-IsSound s v c sn;
  left_le = left-handle_R s c sn;
}

handle_W-Keeps : (s : Session) (c sn l : ℤ) → Keeps s (handle_W c sn l s).1
handle_W-Keeps s c sn l = record {
  sound = λ v. handle_W-IsSound s c sn l v;
  left_le = left-handle_W s c sn l;
}

Keeps-refl : (s : Session) → Keeps s s
Keeps-refl s = record { sound = λ v. v; left_le = omega arith }

on_R-Keeps : (o : Option (List ℤ)) (s : Session) → Keeps s (on_R o s).1
on_R-Keeps none s = Keeps-refl s
on_R-Keeps (some []) s = Keeps-refl s
on_R-Keeps (some (c ∷ [])) s = Keeps-refl s
on_R-Keeps (some (c ∷ sn ∷ [])) s = handle_R-Keeps s c sn
on_R-Keeps (some (c ∷ sn ∷ l ∷ r)) s = Keeps-refl s

on_W-Keeps : (o : Option (List ℤ)) (s : Session) → Keeps s (on_W o s).1
on_W-Keeps none s = Keeps-refl s
on_W-Keeps (some []) s = Keeps-refl s
on_W-Keeps (some (c ∷ [])) s = Keeps-refl s
on_W-Keeps (some (c ∷ sn ∷ [])) s = Keeps-refl s
on_W-Keeps (some (c ∷ sn ∷ l ∷ [])) s = handle_W-Keeps s c sn l
on_W-Keeps (some (c ∷ sn ∷ l ∷ x ∷ r)) s = Keeps-refl s

Keeps-if :
    (b : Bool) {s : Session} (x y : Bool × Session)
    → Keeps s x.1
    → Keeps s y.1
    → Keeps s (if b then x else y).1
Keeps-if true x y kx ky = kx
Keeps-if false x y kx ky = ky

serve_line-Keeps : (line : Bytes) (s : Session) → Keeps s (serve_line line s).1
unfolding serve_line
serve_line-Keeps [] s = Keeps-refl s
serve_line-Keeps (c ∷ rest) s = Keeps-if ((c == newline) || (c == 0)) _ _ (Keeps-refl s) (
    Keeps-if (c == b'I') _ _ (handle_I-Keeps s) (
      Keeps-if (c == b'R') _ _ (on_R-Keeps (scan_longs 2 rest) s) (
        Keeps-if (c == b'W') (on_W (scan_longs 3 rest) s) (false, s)
          (on_W-Keeps (scan_longs 3 rest) s) (Keeps-refl s))))

-- an empty line ends the loop
serve_line-stop : (line : Bytes) (s : Session) → (serve_line line s).0 ≡ true → 0 < length line
unfolding serve_line
serve_line-stop [] s h = absurd (false≢true h)
serve_line-stop (c ∷ rest) s h = omega arith

-- A round that goes on has taken a byte off the stream.
serve_round-lt : (s : Session) → (serve_round s).0 ≡ true → left (serve_round s).1 < left s
unfolding serve_round readline
serve_round-lt s h =
    let line = (line_of (max_line - 1) s.conn.input).0 in
    let s' = record s {
      conn = record s.conn { input = (line_of (max_line - 1) s.conn.input).1 };
    } in
    omega (
      arith,
      length-line_of (max_line - 1) s.conn.input,
      serve_line-stop line s' h,
      (serve_line-Keeps line s').left_le,
    )

serve_round-IsSound : (s : Session) → IsSound s.server → IsSound (serve_round s).1.server
unfolding serve_round
serve_round-IsSound s v = (serve_line-Keeps _ _).sound v

serve_loop_total :
    (fuel : ℕ) (s : Session)
    → left s < fuel
    → IsSound s.server
    → (s' : Session) × (serve_loop fuel s ≡ some s') × IsSound s'.server
unfolding serve_loop
serve_loop_total zero s h v = elim h [ ]
serve_loop_total (suc fuel) s h v = elim (Bool-cases (serve_round s).0) [
  | inl go ↦
      let (s', e, v') =
        serve_loop_total fuel (serve_round s).1 (omega (arith, serve_round-lt s go))
          (serve_round-IsSound s v) in
      (s', rw go e, v')
  | inr stop ↦ ((serve_round s).1, rw stop, serve_round-IsSound s v)
]

-- Whatever a client sends and however long it reads the replies, the thread ends its loop, and the
-- server is as sound as it was: the image still has its length, and every block still lies in it.
pub serve_total :
    (s : Session) → IsSound s.server → (s' : Session) × (serve s ≡ some s') × IsSound s'.server
unfolding serve
serve_total s v = serve_loop_total (suc (left s)) s (omega arith) v
