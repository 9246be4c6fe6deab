-- ===== src/Fs/Fat/Pieces.antt =====
-- The pieces of the FAT in its sectors, for fat_load of fs_server.c: words and bytes, and the table as
-- far as it has been read.
use mathlib.Core.Path.{subst}
use mathlib.Core.List.{append_assoc}
use cs4440proj3_final.Prelude.{
  ℕ, zero, suc, ◌+◌, ◌-◌, ◌*◌, ◌≤◌, ◌<◌, ◌≡◌, refl, ap, sym, ◌∙◌, List, [], ◌∷◌, ◌++◌, length, take,
  drop, splice, overwrite, replicate, min, All, arith, length-take, length-drop,
}
use cs4440proj3_final.Fs.Words.{u32_mod, to_le, of_le, of_le-to_le_4, words_of, bytes_of}
use cs4440proj3_final.Fs.Fat.{per_sector}

-- entries of 32 bits
abbrev pub AllSmall : List ℕ → Type 0
AllSmall = All (λ w. w < u32_mod)

pub sub_suc : (k n : ℕ) → k - n ≡ suc k - suc n
sub_suc k n = omega arith

pub sub_zero : (m : ℕ) → m ≡ m - 0
sub_zero m = omega arith

pub four_more : (k : ℕ) → 4 * suc k ≡ suc (suc (suc (suc (4 * k))))
four_more k = omega arith

words_of-zeros : (k : ℕ) → words_of k (replicate (4 * k) 0) ≡ replicate k 0
unfolding words_of of_le
words_of-zeros zero = refl
words_of-zeros (suc k) = rw (four_more k) (ap (λ l. 0 ∷ l) (words_of-zeros k))

-- the words of a sector that begins with some and has zeros behind
words_of-bytes_of :
    (k : ℕ) (ws : List ℕ)
    → length ws ≤ k
    → AllSmall ws
    → words_of k (overwrite (bytes_of ws) (replicate (4 * k) 0)) ≡ ws ++ replicate (k - length ws) 0
unfolding words_of bytes_of to_le
words_of-bytes_of k [] le small = words_of-zeros k ∙ ap (λ m. replicate {A = ℕ} m 0) (sub_zero k)
words_of-bytes_of zero (w ∷ ws) le small = elim le [ ]
words_of-bytes_of (suc k) (w ∷ ws) le small =
    rw (four_more k)
      (go k w ws (of_le-to_le_4 w small.0) (words_of-bytes_of k ws (omega arith) small.1))
  where
    go :
        (k w : ℕ) (ws : List ℕ)
        → of_le (to_le 4 w) ≡ w
        → words_of k (overwrite (bytes_of ws) (replicate (4 * k) 0))
          ≡ ws ++ replicate (k - length ws) 0
        → words_of
            (suc k)
            (overwrite (to_le 4 w ++ bytes_of ws) (0 ∷ 0 ∷ 0 ∷ 0 ∷ replicate (4 * k) 0))
          ≡ w ∷ (ws ++ replicate (suc k - suc (length ws)) 0)
    go k w ws e ih =
        ap (λ x. x ∷ words_of k (overwrite (bytes_of ws) (replicate (4 * k) 0))) e
        ∙ ap (λ l. w ∷ l) (ih ∙ ap (λ m. ws ++ replicate m 0) (sub_suc k (length ws)))

pub zeros-zeros : (a m : ℕ) → overwrite (replicate a 0) (replicate m 0) ≡ replicate {A = ℕ} m 0
zeros-zeros zero m = refl
zeros-zeros (suc a) zero = refl
zeros-zeros (suc a) (suc m) = ap (λ l. 0 ∷ l) (zeros-zeros a m)

overwrite-zeros :
    (a m : ℕ) (ws : List ℕ)
    → length ws ≤ m
    → overwrite (ws ++ replicate a 0) (replicate m 0) ≡ ws ++ replicate (m - length ws) 0
overwrite-zeros a m [] le = zeros-zeros a m ∙ ap (λ k. replicate {A = ℕ} k 0) (sub_zero m)
overwrite-zeros a zero (w ∷ ws) le = elim le [ ]
overwrite-zeros a (suc m) (w ∷ ws) le =
    ap (λ l. w ∷ l)
      (overwrite-zeros a m ws (omega arith) ∙ ap (λ k. ws ++ replicate k 0) (sub_suc m (length ws)))

splice-append :
    (pre src rest : List ℕ) → splice (length pre) src (pre ++ rest) ≡ pre ++ overwrite src rest
splice-append [] src rest = refl
splice-append (x ∷ pre) src rest = ap (λ l. x ∷ l) (splice-append pre src rest)

pub suc_add : (i k : ℕ) → suc (i + k) ≡ suc i + k
suc_add i k = omega arith

take-nil : (k : ℕ) → take {A = ℕ} k [] ≡ []
take-nil zero = refl
take-nil (suc k) = refl

take-take : (i k : ℕ) (v : List ℕ) → take i v ++ take k (drop i v) ≡ take (i + k) v
take-take zero k v = ap (λ m. take m v) (omega arith)
take-take (suc i) k [] = take-nil k ∙ ap (λ m. take {A = ℕ} m []) (suc_add i k)
take-take (suc i) k (x ∷ v) =
    ap (λ l. x ∷ l) (take-take i k v) ∙ ap (λ m. take m (x ∷ v)) (suc_add i k)

pub AllSmall-take : (k : ℕ) (v : List ℕ) → AllSmall v → AllSmall (take k v)
AllSmall-take zero v h = tt
AllSmall-take (suc k) [] h = tt
AllSmall-take (suc k) (x ∷ v) h = (h.0, AllSmall-take k v h.1)

pub AllSmall-drop : (k : ℕ) (v : List ℕ) → AllSmall v → AllSmall (drop k v)
AllSmall-drop zero v h = h
AllSmall-drop (suc k) [] h = tt
AllSmall-drop (suc k) (x ∷ v) h = AllSmall-drop k v h.1

pub take-all : (k : ℕ) (v : List ℕ) → length v ≤ k → take k v ≡ v
take-all zero [] h = refl
take-all zero (x ∷ v) h = elim h [ ]
take-all (suc k) [] h = refl
take-all (suc k) (x ∷ v) h = ap (λ l. x ∷ l) (take-all k v (omega arith))

-- The table as far as it has been read, zeros behind.
abbrev pub so_far : ℕ → ℕ → List ℕ → List ℕ
so_far total idx v = take idx v ++ replicate (total - idx) 0

-- One sector more.
pub so_far-next :
    (total idx : ℕ) (v : List ℕ)
    → length v ≡ total
    → idx ≤ total
    → AllSmall (take (min per_sector (total - idx)) (drop idx v))
    → splice idx
        (words_of per_sector (
          overwrite
            (bytes_of (take (min per_sector (total - idx)) (drop idx v)))
            (replicate 128 0)))
        (so_far total idx v)
      ≡ so_far total (min total (idx + per_sector)) v
so_far-next total idx v size le small =
    let k : ℕ = min per_sector (total - idx) in
    let ws : List ℕ = take k (drop idx v) in
    let some_words : length ws ≡ k = omega (arith, length-take k (drop idx v), length-drop idx v) in
    let read = words_of-bytes_of per_sector ws (omega arith) small in
    let sum : idx + k ≡ min total (idx + per_sector) = omega arith in
    let left : total - idx - length ws ≡ total - min total (idx + per_sector) =
      omega (arith, some_words) in
    let pre : length (take idx v) ≡ idx = omega (arith, length-take idx v) in
    ap (λ l. splice idx l (so_far total idx v)) read
    ∙ subst
        (λ i.
          splice i (ws ++ replicate (per_sector - length ws) 0) (so_far total idx v)
          ≡ take idx v
            ++ overwrite (ws ++ replicate (per_sector - length ws) 0) (replicate (total - idx) 0))
        pre
        (splice-append (take idx v) (ws ++ replicate (per_sector - length ws) 0)
          (replicate (total - idx) 0))
    ∙ ap (λ l. take idx v ++ l)
        (overwrite-zeros (per_sector - length ws) (total - idx) ws (omega arith))
    ∙ sym (append_assoc (take idx v) ws (replicate (total - idx - length ws) 0))
    ∙ ap (λ l. l ++ replicate (total - idx - length ws) 0) (take-take idx k v)
    ∙ ap (λ m. take m v ++ replicate (total - idx - length ws) 0) sum
    ∙ ap (λ m. take (min total (idx + per_sector)) v ++ replicate m 0) left
