-- ===== src/Prelude/Memory.antt =====
-- `memcpy` and `memset` on byte arrays: a copy into the middle of an array, and what is read back.
use Prim.Native.Nat.{ℕ, zero, suc, ◌+◌, ◌≤◌, ◌<◌}
use mathlib.Core.Path.{◌≡◌, refl, ap, ◌∙◌, subst}
use mathlib.Core.Logic.{◌⊎◌, inl, inr}
use mathlib.Core.List.{List, [], ◌∷◌, ◌++◌}
use native.Mathlib.Omega.{arith}
use mathlib.Core.Option.{some}
use cs4440proj3_final.Prelude.Lists.{length, take, drop, get_or, get_elem?, set, All}

-- A byte is a number below 256, an array of bytes a list of them.
abbrev pub Bytes : Type 0
Bytes = List ℕ

-- The `n` elements from offset `off` on.
abbrev pub slice {ℓ} : {A : Type ℓ} → ℕ → ℕ → List A → List A
slice off n xs = take n (drop off xs)

module _ {ℓ} {A : Type ℓ} where
  -- memcpy(dst, src, length src)
  abbrev pub overwrite : List A → List A → List A
  overwrite [] dst = dst
  overwrite (b ∷ src) [] = []
  overwrite (b ∷ src) (x ∷ dst) = b ∷ overwrite src dst

  -- memcpy(dst + off, src, length src); nothing is written behind the end of `dst`.
  abbrev pub splice : ℕ → List A → List A → List A
  splice zero src dst = overwrite src dst
  splice (suc off) src [] = []
  splice (suc off) src (x ∷ dst) = x ∷ splice off src dst

module _ {ℓ} {A : Type ℓ} where
  length-overwrite : (src dst : List A) → length (overwrite src dst) ≡ length dst
  length-overwrite [] dst = refl
  length-overwrite (b ∷ src) [] = refl
  length-overwrite (b ∷ src) (x ∷ dst) = ap suc (length-overwrite src dst)

  pub length-splice : (off : ℕ) (src dst : List A) → length (splice off src dst) ≡ length dst
  length-splice zero src dst = length-overwrite src dst
  length-splice (suc off) src [] = refl
  length-splice (suc off) src (x ∷ dst) = ap suc (length-splice off src dst)

  take-overwrite :
      (src dst : List A) → length src ≤ length dst → take (length src) (overwrite src dst) ≡ src
  take-overwrite [] dst h = refl
  take-overwrite (b ∷ src) [] h = elim h [ ]
  take-overwrite (b ∷ src) (x ∷ dst) h = ap (λ l. b ∷ l) (take-overwrite src dst (omega arith))

  pub drop-overwrite :
      (o : ℕ) (src dst : List A) → length src ≤ o → drop o (overwrite src dst) ≡ drop o dst
  drop-overwrite o [] dst h = refl
  drop-overwrite zero (b ∷ src) dst h = elim h [ ]
  drop-overwrite (suc o) (b ∷ src) [] h = refl
  drop-overwrite (suc o) (b ∷ src) (x ∷ dst) h = drop-overwrite o src dst (omega arith)

  -- What was copied to an offset is read back there.
  pub slice-splice_self :
      (off : ℕ) (src dst : List A)
      → off + length src ≤ length dst
      → slice off (length src) (splice off src dst) ≡ src
  slice-splice_self zero src dst h = take-overwrite src dst (omega arith)
  slice-splice_self (suc off) [] [] h = refl
  slice-splice_self (suc off) (b ∷ src) [] h = absurd (omega arith)
  slice-splice_self (suc off) src (x ∷ dst) h = slice-splice_self off src dst (omega arith)

  -- Behind the copied bytes nothing has changed.
  pub slice-splice_after :
      (off : ℕ) (src dst : List A) (o n : ℕ)
      → off + length src ≤ o
      → slice o n (splice off src dst) ≡ slice o n dst
  slice-splice_after zero src dst o n h = ap (take n) (drop-overwrite o src dst (omega arith))
  slice-splice_after (suc off) src [] o n h = refl
  slice-splice_after (suc off) src (x ∷ dst) zero n h = absurd (omega arith)
  slice-splice_after (suc off) src (x ∷ dst) (suc o) n h =
      slice-splice_after off src dst o n (omega arith)

  -- Nor before them.
  pub slice-splice_before :
      (off : ℕ) (src dst : List A) (o n : ℕ)
      → o + n ≤ off
      → slice o n (splice off src dst) ≡ slice o n dst
  slice-splice_before off src [] o zero h = refl
  slice-splice_before zero src [] o (suc n) h = absurd (omega arith)
  slice-splice_before (suc off) src [] o (suc n) h = refl
  slice-splice_before off src (x ∷ dst) o zero h = refl
  slice-splice_before zero src (x ∷ dst) o (suc n) h = absurd (omega arith)
  slice-splice_before (suc off) src (x ∷ dst) zero (suc n) h =
      ap (λ l. x ∷ l) (slice-splice_before off src dst zero n (omega arith))
  slice-splice_before (suc off) src (x ∷ dst) (suc o) (suc n) h =
      slice-splice_before off src dst o (suc n) (omega arith)

  -- An array with another laid over its front reads as the other there.
  pub slice-overwrite :
      (src dst : List A) (o n : ℕ)
      → length src ≤ length dst
      → o + n ≤ length src
      → slice o n (overwrite src dst) ≡ slice o n src
  slice-overwrite [] dst zero zero h k = refl
  slice-overwrite [] dst zero (suc n) h k = absurd (omega arith)
  slice-overwrite [] dst (suc o) n h k = absurd (omega arith)
  slice-overwrite (b ∷ src) [] o n h k = absurd (omega arith)
  slice-overwrite (b ∷ src) (x ∷ dst) zero zero h k = refl
  slice-overwrite (b ∷ src) (x ∷ dst) zero (suc n) h k =
      ap (λ l. b ∷ l) (slice-overwrite src dst zero n (omega arith) (omega arith))
  slice-overwrite (b ∷ src) (x ∷ dst) (suc o) n h k =
      slice-overwrite src dst o n (omega arith) (omega arith)

  pub drop-splice :
      (off : ℕ) (src dst : List A) → drop off (splice off src dst) ≡ overwrite src (drop off dst)
  drop-splice zero src dst = refl
  drop-splice (suc off) [] [] = refl
  drop-splice (suc off) (b ∷ src) [] = refl
  drop-splice (suc off) src (x ∷ dst) = drop-splice off src dst

  pub get_or-splice_before :
      (off : ℕ) (src dst : List A) (o : ℕ) (d : A)
      → o < off
      → get_or (splice off src dst) o d ≡ get_or dst o d
  get_or-splice_before zero src dst o d h = absurd (omega arith)
  get_or-splice_before (suc off) src [] o d h = refl
  get_or-splice_before (suc off) src (x ∷ dst) zero d h = refl
  get_or-splice_before (suc off) src (x ∷ dst) (suc o) d h =
      get_or-splice_before off src dst o d (omega arith)

  pub get_or-slice : (xs : List A) (o : ℕ) (x d : A) → slice o 1 xs ≡ x ∷ [] → get_or xs o d ≡ x
  get_or-slice [] zero x d h = cc
  get_or-slice [] (suc o) x d h = cc
  get_or-slice (y ∷ xs) zero x d h = cc
  get_or-slice (y ∷ xs) (suc o) x d h = get_or-slice xs o x d h

  pub set_same : (xs : List A) (i : ℕ) (v : A) → get_elem? xs i ≡ some v → set xs i v ≡ xs
  set_same [] i v h = refl
  set_same (x ∷ xs) zero v h = cc
  set_same (x ∷ xs) (suc i) v h = ap (λ l. x ∷ l) (set_same xs i v h)

-- A record packed field by field: each field is copied to its offset, the last one listed first.
abbrev pub layers : List (ℕ × Bytes) → Bytes → Bytes
layers [] base = base
layers ((o, b) ∷ fields) base = splice o b (layers fields base)

-- The `n` bytes at `o` and a field do not overlap.
abbrev pub Apart : ℕ → ℕ → ℕ × Bytes → Type 0
Apart o n (o', b) = (o + n ≤ o') ⊎ (o' + length b ≤ o)

pub length-layers :
    (fields : List (ℕ × Bytes)) (base : Bytes) → length (layers fields base) ≡ length base
length-layers [] base = refl
length-layers ((o, b) ∷ fields) base =
    length-splice o b (layers fields base) ∙ length-layers fields base

-- A field is read back if the fields that were copied after it lie elsewhere.
slice-layers :
    (above : List (ℕ × Bytes)) (o : ℕ) (b : Bytes) (below : List (ℕ × Bytes)) (base : Bytes)
    → All (Apart o (length b)) above
    → o + length b ≤ length base
    → slice o (length b) (layers (above ++ ((o, b) ∷ below)) base) ≡ b
slice-layers [] o b below base apart fits =
    slice-splice_self o b (layers below base) (omega (arith, length-layers below base))
slice-layers ((o', b') ∷ above) o b below base apart fits =
    elim apart.0 [
      | inl before ↦
          slice-splice_before o' b' (layers (above ++ ((o, b) ∷ below)) base) o (length b) before
      | inr behind ↦
          slice-splice_after o' b' (layers (above ++ ((o, b) ∷ below)) base) o (length b) behind
    ]
    ∙ slice-layers above o b below base apart.1 fits

-- The same for a field whose size is known as a number.
pub read_field :
    (above : List (ℕ × Bytes)) (o k : ℕ) (b : Bytes) (below : List (ℕ × Bytes)) (base : Bytes)
    → length b ≡ k
    → All (Apart o k) above
    → o + k ≤ length base
    → slice o k (layers (above ++ ((o, b) ∷ below)) base) ≡ b
read_field above o k b below base size =
    subst
      (λ n.
        All (Apart o n) above
        → o + n ≤ length base
        → slice o n (layers (above ++ ((o, b) ∷ below)) base) ≡ b)
      size (slice-layers above o b below base)
