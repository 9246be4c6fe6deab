-- ===== src/Fs/File/Stored.antt =====
-- What the blocks of a file hold, for read_whole_file and write_whole_file of fs_server.c.
use mathlib.Core.Path.{subst}
use cs4440proj3_final.Prelude.{
  ℕ, zero, suc, ◌+◌, ◌-◌, ◌*◌, ◌≤◌, ◌<◌, ◌≡◌, refl, ap, sym, ◌∙◌, List, [], ◌∷◌, ◌++◌, Bytes, slice,
  splice, replicate, length, take, drop, min, arith, All, length-take, length-drop,
  length-replicate, length-splice, slice-splice_self,
}
use cs4440proj3_final.Fs.File.{data_sector}

-- the bytes that the next block takes
abbrev pub piece : Bytes → ℕ → ℕ
piece bytes pos = min (length bytes - pos) 128

-- The blocks hold the bytes from `pos` on, 128 in each.
abbrev pub Stored : (ℕ → Bytes) → List ℕ → Bytes → ℕ → Type 0
Stored g [] bytes pos = Unit
Stored g (b ∷ bs) bytes pos =
    (g b ≡ data_sector bytes pos (piece bytes pos)) × Stored g bs bytes (pos + piece bytes pos)

-- `k` blocks are as many as `left` bytes take
pub record Covers (k left : ℕ) : Type 0 where
  pub enough : left ≤ 128 * k
  pub needed : 128 * k < left + 128

-- the bytes left after a block
pub Covers-next : (k left : ℕ) → Covers (suc k) left → Covers k (left - min left 128)
Covers-next k left c = record { enough = omega (arith, c.enough); needed = omega (arith, c.needed) }

pub left-next :
    (bytes : Bytes) (pos : ℕ)
    → length bytes - (pos + piece bytes pos) ≡ length bytes - pos - min (length bytes - pos) 128
left-next bytes pos = omega arith

pub length-data_sector : (bytes : Bytes) (pos k : ℕ) → length (data_sector bytes pos k) ≡ 128
length-data_sector bytes pos k =
    length-splice 0 (slice pos k bytes) (replicate 128 0) ∙ length-replicate {A = ℕ} 128 0

-- A block gives its bytes back.
pub take-data_sector :
    (bytes : Bytes) (pos : ℕ)
    → take (piece bytes pos) (data_sector bytes pos (piece bytes pos))
      ≡ slice pos (piece bytes pos) bytes
take-data_sector bytes pos =
    let src = slice pos (piece bytes pos) bytes in
    let size : length src ≡ piece bytes pos =
      omega (arith, length-take (piece bytes pos) (drop pos bytes), length-drop pos bytes) in
    subst (λ k. take k (splice 0 src (replicate 128 0)) ≡ src) size
      (slice-splice_self 0 src (replicate 128 0)
        (omega (arith, size, length-replicate {A = ℕ} 128 0)))

suc_add : (pos k : ℕ) → suc pos + k ≡ suc (pos + k)
suc_add pos k = omega arith

drop-nil : (k : ℕ) → drop {A = ℕ} k [] ≡ []
drop-nil zero = refl
drop-nil (suc k) = refl

take-drop : (k : ℕ) (bytes : Bytes) → take k bytes ++ drop k bytes ≡ bytes
take-drop zero bytes = refl
take-drop (suc k) [] = refl
take-drop (suc k) (x ∷ bytes) = ap (λ l. x ∷ l) (take-drop k bytes)

drop-drop : (pos k : ℕ) (bytes : Bytes) → drop (pos + k) bytes ≡ drop k (drop pos bytes)
drop-drop zero k bytes = ap (λ m. drop m bytes) (omega arith)
drop-drop (suc pos) k [] = ap (λ m. drop m []) (suc_add pos k) ∙ sym (drop-nil k)
drop-drop (suc pos) k (x ∷ bytes) =
    ap (λ m. drop m (x ∷ bytes)) (suc_add pos k) ∙ drop-drop pos k bytes

pub slice-drop :
    (pos k : ℕ) (bytes : Bytes) → slice pos k bytes ++ drop (pos + k) bytes ≡ drop pos bytes
slice-drop pos k bytes =
    ap (λ l. slice pos k bytes ++ l) (drop-drop pos k bytes) ∙ take-drop k (drop pos bytes)

pub drop-end : (pos : ℕ) (bytes : Bytes) → length bytes ≤ pos → drop pos bytes ≡ []
drop-end zero [] h = refl
drop-end zero (x ∷ bytes) h = elim h [ ]
drop-end (suc pos) [] h = refl
drop-end (suc pos) (x ∷ bytes) h = drop-end pos bytes (omega arith)

-- What is stored depends on the blocks alone.
pub Stored-same :
    (g g' : ℕ → Bytes) (bs : List ℕ) (bytes : Bytes) (pos : ℕ)
    → All (λ b. g' b ≡ g b) bs
    → Stored g bs bytes pos
    → Stored g' bs bytes pos
Stored-same g g' [] bytes pos same st = tt
Stored-same g g' (b ∷ bs) bytes pos same st =
    (same.0 ∙ st.0, Stored-same g g' bs bytes (pos + piece bytes pos) same.1 st.1)
