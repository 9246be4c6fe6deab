-- ===== src/Disk/Serve/Requests.antt =====
-- A well-formed command line reaches its handler with the numbers that it was printed from.
use mathlib.Core.List.{append_assoc}
use cs4440proj3_final.Prelude.{
  true, ◌⊎◌, inl, inr, ℕ, zero, suc, ◌-◌, ◌≤◌, ◌<◌, ◌≡◌, refl, ◌∙◌, false, List, some, [], ◌∷◌,
  ◌++◌, map, Bytes, arith, length, ◌==◌,
}
use cs4440proj3_final.Prelude.Int.{ℤ, pos}
use cs4440proj3_final.Text.{print_dec, words, request, newline, long_max, scan_long}
use cs4440proj3_final.Text.Decimal.{Ends, scan_long-print_dec, scan_long-space}
use cs4440proj3_final.Text.Lines.{Plain, AllLong, request_line}
use cs4440proj3_final.Net.{line_of, readline}
use cs4440proj3_final.Disk.{validate_cs, fits_block, Server, handle_I, handle_R, handle_W}
use cs4440proj3_final.Disk.Blocks.{at, handle_W_refuses}
use cs4440proj3_final.Disk.Serve.{max_line, scan_longs, serve_line, serve_round}

-- the line at the front of a stream
pub line_of-Plain :
    (room : ℕ) (line rest : Bytes)
    → Plain line
    → length line < room
    → line_of room (line ++ (newline ∷ rest)) ≡ (line ++ (newline ∷ []), rest)
unfolding line_of
line_of-Plain zero line rest p h = elim h [ ]
line_of-Plain (suc room) [] rest p h = refl
line_of-Plain (suc room) (c ∷ line) rest p h =
    rw (p.0, line_of-Plain room line rest p.1 (omega arith))

Ends-words : (ns : List ℕ) → Ends (words ns (newline ∷ []))
unfolding words
Ends-words [] = refl
Ends-words (n ∷ ns) = refl

pub scan_longs-suc :
    (n : ℕ) (s rest : Bytes) (v : ℤ) (vs : List ℤ)
    → scan_long s ≡ some (v, rest)
    → scan_longs n rest ≡ some vs
    → scan_longs (suc n) s ≡ some (v ∷ vs)
unfolding scan_longs
scan_longs-suc n s rest v vs h ih = ground arith

-- As many "%ld" as there are numbers read back the numbers.
pub scan_longs-words :
    (ns : List ℕ)
    → AllLong ns
    → scan_longs (length ns) (words ns (newline ∷ [])) ≡ some (map pos ns)
unfolding scan_longs words
scan_longs-words [] long = refl
scan_longs-words (n ∷ ns) long =
    scan_longs-suc (length ns) (words (n ∷ ns) (newline ∷ [])) (words ns (newline ∷ [])) (pos n)
      (map pos ns)
      (scan_long-space (print_dec n ++ words ns (newline ∷ []))
        ∙ scan_long-print_dec n (words ns (newline ∷ [])) long.0 (Ends-words ns))
      (scan_longs-words ns long.1)

-- A request at the front of the stream is the line that the thread reads.
serve_round-request :
    (cmd : ℕ) (ns : List ℕ) (srv : Server) (rest output : Bytes)
    → (cmd == newline) ≡ false
    → AllLong ns
    → length ns ≤ 4
    → serve_round (at srv (request cmd ns ++ rest) output)
      ≡ serve_line (request cmd ns) (at srv rest output)
unfolding serve_round readline
serve_round-request cmd ns srv rest output h long few =
    let (line, e, plain, short) = request_line cmd ns h long in
    rw (e, append_assoc, line_of-Plain (max_line - 1) line rest plain (omega arith))

module _ (srv : Server) (rest output : Bytes) where
  -- A line "R c s" that was printed from numbers in the range of `long` runs handle_R on these numbers,
  -- with what follows the line still in the stream.
  pub serve_R :
      (c s : ℕ)
      → c ≤ long_max
      → s ≤ long_max
      → serve_round (at srv (request b'R' (c ∷ s ∷ []) ++ rest) output)
        ≡ handle_R (pos c) (pos s) (at srv rest output)
  unfolding serve_line request
  serve_R c s hc hs =
      serve_round-request b'R' (c ∷ s ∷ []) srv rest output refl (hc, (hs, tt)) (omega arith)
      ∙ rw (scan_longs-words (c ∷ s ∷ []) (hc, (hs, tt)))

  -- A line "W c s l" that was printed from numbers in the range of `long` runs handle_W on these
  -- numbers, with what follows the line still in the stream.
  pub serve_W :
      (c s l : ℕ)
      → c ≤ long_max
      → s ≤ long_max
      → l ≤ long_max
      → serve_round (at srv (request b'W' (c ∷ s ∷ l ∷ []) ++ rest) output)
        ≡ handle_W (pos c) (pos s) (pos l) (at srv rest output)
  unfolding serve_line request
  serve_W c s l hc hs hl =
      serve_round-request b'W' (c ∷ s ∷ l ∷ []) srv rest output refl (hc, (hs, (hl, tt)))
        (omega arith)
      ∙ rw (scan_longs-words (c ∷ s ∷ l ∷ []) (hc, (hs, (hl, tt))))

  pub serve_I :
      serve_round (at srv (request b'I' [] ++ rest) output) ≡ handle_I (at srv rest output)
  unfolding serve_line request
  serve_I = serve_round-request b'I' [] srv rest output refl tt (omega arith)

  refused :
      (c s l : ℕ)
      → (srv.cyl ≤ c) ⊎ ((srv.sec ≤ s) ⊎ (128 < l))
      → (validate_cs srv (pos c) (pos s) ≡ false) ⊎ (fits_block (pos l) ≡ false)
  unfolding validate_cs
  refused c s l (inl h) = inl (ground arith)
  refused c s l (inr (inl h)) = inl (ground arith)
  refused c s l (inr (inr h)) = inr (ground arith)

  -- A line "W c s l" with numbers in the range of `long`, of which the cylinder or the sector is not on
  -- the disk or the length is above 128: the reply is 0, the disk and its arm are as before, and none
  -- of the bytes that the client sends behind the line has been taken, so the next round reads them
  -- as a command line.
  pub serve_round-refuses :
      (c s l : ℕ)
      → c ≤ long_max
      → s ≤ long_max
      → l ≤ long_max
      → (srv.cyl ≤ c) ⊎ ((srv.sec ≤ s) ⊎ (128 < l))
      → serve_round (at srv (request b'W' (c ∷ s ∷ l ∷ []) ++ rest) output)
        ≡ (true, at srv rest (output ++ (48 ∷ [])))
  serve_round-refuses c s l hc hs hl h =
      serve_W c s l hc hs hl
      ∙ handle_W_refuses srv rest output (pos c) (pos s) (pos l) (refused c s l h)
