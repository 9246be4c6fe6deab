-- ===== src/Fs/Dirent/Names.antt =====
-- The name array that cmd_create of fs_server.c fills by strncpy, and its comparison by strncmp.
use cs4440proj3_final.Prelude.{
  ℕ, zero, suc, ◌+◌, ◌-◌, ◌≤◌, ◌<◌, ◌≡◌, refl, ap, true, some, [], ◌∷◌, ◌++◌, Bytes, length, take,
  replicate, get_elem?, arith, length-append, length-take, length-replicate,
}
use cs4440proj3_final.Fs.Dirent.{max_name, name_array, strncmp_eq}

strncmp_eq-terminated :
    (n : ℕ) (a zs : Bytes) → length a < n → strncmp_eq n (a ++ (0 ∷ zs)) a ≡ true
unfolding strncmp_eq
strncmp_eq-terminated zero a zs h = elim h [ ]
strncmp_eq-terminated (suc n) [] zs h = refl
strncmp_eq-terminated (suc n) (x ∷ a) zs h =
    ground (arith, strncmp_eq-terminated n a zs (omega arith))

pub replicate-pos : (m : ℕ) → 0 < m → replicate {A = ℕ} m 0 ≡ 0 ∷ replicate (m - 1) 0
replicate-pos zero h = elim h [ ]
replicate-pos (suc m) h = ap (λ k. 0 ∷ replicate {A = ℕ} k 0) (omega arith)

pub take-le : (n : ℕ) (s : Bytes) → length s ≤ n → take n s ≡ s
take-le zero [] h = refl
take-le zero (x ∷ s) h = elim h [ ]
take-le (suc n) [] h = refl
take-le (suc n) (x ∷ s) h = ap (λ l. x ∷ l) (take-le n s (omega arith))

get_elem?-padding :
    (a : Bytes) (m i : ℕ)
    → length a ≤ i
    → i < length a + m
    → get_elem? (a ++ replicate m 0) i ≡ some 0
get_elem?-padding [] zero i le lt = absurd (omega arith)
get_elem?-padding [] (suc m) zero le lt = refl
get_elem?-padding [] (suc m) (suc i) le lt = get_elem?-padding [] m i (omega arith) (omega arith)
get_elem?-padding (x ∷ a) m zero le lt = absurd (omega arith)
get_elem?-padding (x ∷ a) m (suc i) le lt = get_elem?-padding a m i (omega arith) (omega arith)

pub length-name_array : (s : Bytes) → length (name_array s) ≡ 32
unfolding name_array
length-name_array s =
    let t = take 31 s in
    omega (
      arith,
      length-append t (replicate (32 - length t) 0),
      length-replicate {A = ℕ} (32 - length t) 0,
      length-take 31 s,
    )

-- The array ends with a NUL.
pub name_array-terminated : (s : Bytes) → get_elem? (name_array s) 31 ≡ some 0
unfolding name_array
name_array-terminated s =
    let t = take 31 s in
    get_elem?-padding t (32 - length t) 31 (omega (arith, length-take 31 s))
      (omega (arith, length-take 31 s))

-- A name of less than 32 bytes compares equal, by strncmp, to the array that cmd_create fills with it.
pub strncmp_eq-name_array :
    (s : Bytes) → length s < max_name → strncmp_eq max_name (name_array s) s ≡ true
unfolding name_array
strncmp_eq-name_array s h =
    rw (take-le 31 s (omega arith), replicate-pos (32 - length s) (omega arith))
      (strncmp_eq-terminated 32 s (replicate (32 - length s - 1) 0) h)
