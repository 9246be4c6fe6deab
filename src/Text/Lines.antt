-- ===== src/Text/Lines.antt =====
-- The command lines of the disk protocol: they have one newline, at the end, and they are short.
use mathlib.Core.List.{append_assoc}
use cs4440proj3_final.Prelude.{
  ℕ, zero, suc, ◌+◌, ◌*◌, ◌/◌, ◌%◌, ◌≤◌, ◌<◌, ◌≡◌, refl, ap, false, inl, inr, List, [], ◌∷◌, ◌++◌,
  Bytes, arith, ltb, length, Bool-cases, ◌==◌, length-append, All,
}
use cs4440proj3_final.Text.{print_digits, print_dec, words, request, newline, space, long_max}

-- no newline among the bytes
abbrev pub Plain : Bytes → Type 0
Plain [] = Unit
Plain (c ∷ s) = ((c == newline) ≡ false) × Plain s

pub Plain-append : (s t : Bytes) → Plain s → Plain t → Plain (s ++ t)
Plain-append [] t ps pt = pt
Plain-append (c ∷ s) t ps pt = (ps.0, Plain-append s t ps.1 pt)

print_digits-Plain : (fuel n : ℕ) (acc : Bytes) → Plain acc → Plain (print_digits fuel n acc)
unfolding print_digits
print_digits-Plain zero n acc p = p
print_digits-Plain (suc fuel) n acc p = elim (Bool-cases (ltb n 10)) [
  | inl small ↦ rw small (ground arith, p)
  | inr large ↦ rw large (print_digits-Plain fuel (n / 10) _ (ground arith, p))
]

pub print_dec-Plain : (n : ℕ) → Plain (print_dec n)
unfolding print_dec
print_dec-Plain n = print_digits-Plain (suc n) n [] tt

abbrev pow10 : ℕ → ℕ
pow10 zero = 1
pow10 (suc k) = 10 * pow10 k

length-print_digits :
    (fuel k n : ℕ) (acc : Bytes)
    → n < pow10 (suc k)
    → length (print_digits fuel n acc) ≤ suc k + length acc
unfolding print_digits
length-print_digits zero k n acc h = omega arith
length-print_digits (suc fuel) zero n acc h = ground arith
length-print_digits (suc fuel) (suc k) n acc h =
    ground (arith, length-print_digits fuel k (n / 10) ((b'0' + n % 10) ∷ acc))

pub length-print_dec : (n : ℕ) → n ≤ long_max → length (print_dec n) ≤ 19
unfolding print_dec
length-print_dec n h = omega (arith, length-print_digits (suc n) 18 n [] (omega arith))

-- the line without its newline
abbrev body : List ℕ → Bytes
body ns = words ns []

abbrev pub AllLong : List ℕ → Type 0
AllLong ns = All (λ n. n ≤ long_max) ns

words-body : (ns : List ℕ) (rest : Bytes) → words ns rest ≡ body ns ++ rest
unfolding words
words-body [] rest = refl
words-body (n ∷ ns) rest = ap (λ l. space ∷ l) (rw (words-body ns rest, append_assoc))

body-Plain : (ns : List ℕ) → Plain (body ns)
unfolding words
body-Plain [] = tt
body-Plain (n ∷ ns) =
    (refl, Plain-append (print_dec n) (body ns) (print_dec-Plain n) (body-Plain ns))

length-body : (ns : List ℕ) → AllLong ns → length (body ns) ≤ 20 * length ns
unfolding words
length-body [] h = omega arith
length-body (n ∷ ns) h =
    omega (arith, length-append (print_dec n) (body ns), length-print_dec n h.0, length-body ns h.1)

-- A request is a line: its newline is its last byte, and it is at most 20 bytes to a number long.
pub request_line :
    (cmd : ℕ) (ns : List ℕ)
    → (cmd == newline) ≡ false
    → AllLong ns
    → (line : Bytes) × (request cmd ns ≡ line ++ (newline ∷ []))
      × Plain line
      × (length line ≤ 1 + 20 * length ns)
unfolding request
request_line cmd ns h long = (
  cmd ∷ body ns,
  ap (λ l. cmd ∷ l) (words-body ns (newline ∷ [])),
  (h, body-Plain ns),
  omega (arith, length-body ns long),
)
