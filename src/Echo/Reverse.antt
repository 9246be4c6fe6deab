-- ===== src/Echo/Reverse.antt =====
-- reverse_inplace of server.c reverses.
use native.Mathlib.Decide.{ℕ_discrete}
use cs4440proj3_final.Prelude.{
  ℕ, zero, suc, ◌+◌, ◌-◌, ◌≤◌, ◌<◌, ◌≡◌, ◌≢◌, refl, ap, ◌∙◌, ◌⊎◌, inl, inr, Bool-cases, [], ◌∷◌,
  Bytes, length, set, get_or, ltb, arith, length-set,
}
use cs4440proj3_final.Echo.{swap_loop, reverse_inplace}

get_or-set_self : (xs : Bytes) (i v : ℕ) → i < length xs → get_or (set xs i v) i 0 ≡ v
get_or-set_self [] i v h = elim h [ ]
get_or-set_self (x ∷ xs) zero v h = refl
get_or-set_self (x ∷ xs) (suc i) v h = get_or-set_self xs i v (omega arith)

get_or-set_ne : (xs : Bytes) (i j v : ℕ) → i ≢ j → get_or (set xs i v) j 0 ≡ get_or xs j 0
get_or-set_ne [] i j v h = refl
get_or-set_ne (x ∷ xs) zero zero v h = absurd (h refl)
get_or-set_ne (x ∷ xs) zero (suc j) v h = refl
get_or-set_ne (x ∷ xs) (suc i) zero v h = refl
get_or-set_ne (x ∷ xs) (suc i) (suc j) v h = get_or-set_ne xs i j v (λ e. h (ap suc e))

-- the list with two elements exchanged
abbrev swapped : Bytes → ℕ → ℕ → Bytes
swapped s i j = set (set s i (get_or s j 0)) j (get_or s i 0)

swapped-i : (s : Bytes) (i j : ℕ) → i < j → j < length s → get_or (swapped s i j) i 0 ≡ get_or s j 0
swapped-i s i j h lt =
    get_or-set_ne (set s i (get_or s j 0)) j i (get_or s i 0) (omega arith)
    ∙ get_or-set_self s i (get_or s j 0) (omega arith)

swapped-j : (s : Bytes) (i j : ℕ) → i < j → j < length s → get_or (swapped s i j) j 0 ≡ get_or s i 0
swapped-j s i j h lt =
    get_or-set_self (set s i (get_or s j 0)) j (get_or s i 0)
      (omega (arith, length-set s i (get_or s j 0)))

swapped-ne : (s : Bytes) (i j k : ℕ) → i ≢ k → j ≢ k → get_or (swapped s i j) k 0 ≡ get_or s k 0
swapped-ne s i j k hi hj =
    get_or-set_ne (set s i (get_or s j 0)) j k (get_or s i 0) hj
    ∙ get_or-set_ne s i k (get_or s j 0) hi

length-swapped : (s : Bytes) (i j : ℕ) → length (swapped s i j) ≡ length s
length-swapped s i j =
    length-set (set s i (get_or s j 0)) j (get_or s i 0) ∙ length-set s i (get_or s j 0)

-- What the loop does to the piece from `i` to `j`.
record Turned (i j : ℕ) (s s' : Bytes) : Type 0 where
  inside : (k : ℕ) → i ≤ k → k ≤ j → get_or s' k 0 ≡ get_or s (i + j - k) 0
  outside : (k : ℕ) → (k < i) ⊎ (j < k) → get_or s' k 0 ≡ get_or s k 0
  size : length s' ≡ length s

mirror : (i j k : ℕ) → i + 1 ≤ k → k ≤ j - 1 → i + 1 + (j - 1) - k ≡ i + j - k
mirror i j k a b = omega arith

turn_more :
    (i j : ℕ) (s s' : Bytes)
    → i < j
    → j < length s
    → Turned (i + 1) (j - 1) (swapped s i j) s'
    → Turned i j s s'
turn_more i j s s' h lt t = record {
  inside = λ k a b. elim (ℕ_discrete k i) [
    | yes e ↦
        t.outside k (inl (omega arith))
        ∙ ap (λ k. get_or (swapped s i j) k 0) e
        ∙ swapped-i s i j h lt
        ∙ ap (λ k. get_or s k 0) (omega arith)
    | no ne ↦ elim (ℕ_discrete k j) [
      | yes e ↦
          t.outside k (inr (omega arith))
          ∙ ap (λ k. get_or (swapped s i j) k 0) e
          ∙ swapped-j s i j h lt
          ∙ ap (λ k. get_or s k 0) (omega arith)
      | no nj ↦
          t.inside k (omega arith) (omega arith)
          ∙ ap (λ k. get_or (swapped s i j) k 0) (mirror i j k (omega arith) (omega arith))
          ∙ swapped-ne s i j (i + j - k) (omega arith) (omega arith)
    ]
  ];
  outside = λ k out. t.outside k (omega arith) ∙ swapped-ne s i j k (omega arith) (omega arith);
  size = t.size ∙ length-swapped s i j;
}

swap_loop_lem :
    (fuel i j : ℕ) (s : Bytes) → j < length s → j < i + fuel → Turned i j s (swap_loop fuel i j s)
unfolding swap_loop
swap_loop_lem zero i j s lt f = record {
  inside = λ k a b. absurd (omega arith);
  outside = λ k out. refl;
  size = refl;
}
swap_loop_lem (suc fuel) i j s lt f = elim (Bool-cases (ltb i j)) [
  | inl go ↦
      let less : i < j = ground arith in
      rw go (
        turn_more i j s _ less lt (
          swap_loop_lem fuel (i + 1) (j - 1) (swapped s i j) (omega (arith, length-swapped s i j))
            (omega arith)))
  | inr stop ↦
      let done : j ≤ i = ground arith in
      rw stop (record {
        inside = λ k a b. ap (λ k. get_or s k 0) (omega arith);
        outside = λ k out. refl;
        size = refl;
      })
]

-- reverse_inplace keeps the length of the array, puts byte n - 1 - k at k for every k below n, and
-- leaves the bytes from n on as they are.
pub reverse_inplace-get_or :
    (s : Bytes) (n : ℕ)
    → n ≤ length s
    → (length (reverse_inplace s n) ≡ length s)
      × ((k : ℕ) → k < n → get_or (reverse_inplace s n) k 0 ≡ get_or s (n - 1 - k) 0)
      × ((k : ℕ) → n ≤ k → get_or (reverse_inplace s n) k 0 ≡ get_or s k 0)
unfolding reverse_inplace
reverse_inplace-get_or s zero le =
    unfold swap_loop in (refl, (λ k h. absurd (omega arith)), λ k h. refl)
reverse_inplace-get_or s (suc n) le =
    let t = swap_loop_lem (suc n) 0 (suc n - 1) s (omega arith) (omega arith) in
    (
      t.size,
      (λ k h. t.inside k (omega arith) (omega arith) ∙ ap (λ k. get_or s k 0) (omega arith)),
      λ k h. t.outside k (inr (omega arith)),
    )
