-- ===== src/Text/Decimal.antt =====
-- What is printed as a number is read back as that number.
use mathlib.Core.Path.{subst}
use cs4440proj3_final.Prelude.{
  ℕ, zero, suc, ◌+◌, ◌-◌, ◌*◌, ◌^◌, ◌/◌, ◌%◌, ◌≤◌, ◌<◌, ◌≡◌, refl, ap, true, false, inl, inr, some,
  [], ◌∷◌, ◌++◌, Bytes, arith, ltb, length, Bool-cases,
}
use cs4440proj3_final.Prelude.Int.{pos}
use cs4440proj3_final.Text.{
  is_digit, print_digits, print_dec, scan_digits, scan_nat, scan_signed, scan_long, scan_unsigned,
  scan_u32, skip_space, long_max, space,
}

-- The text behind a number does not go on with a digit.
abbrev pub Ends : Bytes → Type 0
Ends [] = Unit
Ends (c ∷ s) = is_digit c ≡ false

-- Reading digits one by one, from the value `acc` on.
value_of : ℕ → Bytes → ℕ
value_of acc [] = acc
value_of acc (c ∷ s) = value_of (acc * 10 + (c - b'0')) s

abbrev Digits : Bytes → Type 0
Digits [] = Unit
Digits (c ∷ s) = (is_digit c ≡ true) × Digits s

scan_digits-append :
    (acc : ℕ) (ds rest : Bytes)
    → Digits ds
    → Ends rest
    → scan_digits acc (ds ++ rest) ≡ (value_of acc ds, rest)
unfolding scan_digits value_of
scan_digits-append acc [] [] d e = ground arith
scan_digits-append acc [] (c ∷ rest) d e = ground arith
scan_digits-append acc (c ∷ ds) rest d e =
    ground (arith, scan_digits-append (acc * 10 + (c - b'0')) ds rest d.1 e)

-- one digit
digit_value : (n : ℕ) → (b'0' + n % 10) - b'0' ≡ n % 10
digit_value n = omega arith

digit-is_digit : (n : ℕ) → is_digit (b'0' + n % 10) ≡ true
digit-is_digit n = ground arith

value_of-print_digits :
    (fuel n : ℕ) (acc : Bytes) → n < fuel → value_of 0 (print_digits fuel n acc) ≡ value_of n acc
unfolding print_digits value_of
value_of-print_digits zero n acc h = elim h [ ]
value_of-print_digits (suc fuel) n acc h = elim (Bool-cases (ltb n 10)) [
  | inl small ↦ rw small (ap (λ k. value_of k acc) (ground arith))
  | inr large ↦
      rw (large, value_of-print_digits fuel (n / 10) ((b'0' + n % 10) ∷ acc) (ground arith))
        (ap (λ k. value_of k acc) (omega arith))
]

print_digits-Digits : (fuel n : ℕ) (acc : Bytes) → Digits acc → Digits (print_digits fuel n acc)
unfolding print_digits
print_digits-Digits zero n acc d = d
print_digits-Digits (suc fuel) n acc d = elim (Bool-cases (ltb n 10)) [
  | inl small ↦ rw small (digit-is_digit n, d)
  | inr large ↦ rw large (print_digits-Digits fuel (n / 10) _ (digit-is_digit n, d))
]

print_digits-ne : (fuel n : ℕ) (acc : Bytes) → length acc < length (print_digits (suc fuel) n acc)
unfolding print_digits
print_digits-ne zero n acc = ground arith
print_digits-ne (suc fuel) n acc =
    ground (arith, print_digits-ne fuel (n / 10) ((b'0' + n % 10) ∷ acc))

scan_long-Digits :
    (ds rest : Bytes)
    → Digits ds
    → 0 < length ds
    → Ends rest
    → value_of 0 ds ≤ long_max
    → scan_long (ds ++ rest) ≡ some (pos (value_of 0 ds), rest)
unfolding scan_long scan_signed skip_space scan_nat
scan_long-Digits [] rest d l e h = absurd (omega arith)
scan_long-Digits (c ∷ ds) rest d l e h = ground (arith, scan_digits-append 0 (c ∷ ds) rest d e)

-- "%ld" reads back what "%ld" printed of a value from 0 to LONG_MAX, up to the text behind it, if no
-- digit follows.
pub scan_long-print_dec :
    (n : ℕ) (rest : Bytes)
    → n ≤ long_max
    → Ends rest
    → scan_long (print_dec n ++ rest) ≡ some (pos n, rest)
unfolding print_dec value_of
scan_long-print_dec n rest h e =
    let same : value_of 0 (print_digits (suc n) n []) ≡ n =
      value_of-print_digits (suc n) n [] (omega arith) in
    subst (λ k. scan_long (print_digits (suc n) n [] ++ rest) ≡ some (pos k, rest)) same
      (scan_long-Digits (print_digits (suc n) n []) rest (print_digits-Digits (suc n) n [] tt)
        (omega (arith, print_digits-ne n n [])) e (omega arith))

-- A "%ld" skips a space.
pub scan_long-space : (s : Bytes) → scan_long (space ∷ s) ≡ scan_long s
unfolding scan_long skip_space
scan_long-space s = refl

scan_u32-Digits :
    (ds rest : Bytes)
    → Digits ds
    → 0 < length ds
    → Ends rest
    → value_of 0 ds < 2 ^ 32
    → scan_u32 (ds ++ rest) ≡ some (value_of 0 ds)
unfolding scan_u32 scan_unsigned skip_space scan_nat
scan_u32-Digits [] rest d l e h = absurd (omega arith)
scan_u32-Digits (c ∷ ds) rest d l e h = ground (arith, scan_digits-append 0 (c ∷ ds) rest d e)

-- "%u" reads back what "%u" printed of a 32-bit value, behind a space.
pub scan_u32-print_dec :
    (n : ℕ) (rest : Bytes)
    → n < 2 ^ 32
    → Ends rest
    → scan_u32 (space ∷ (print_dec n ++ rest)) ≡ some n
unfolding print_dec scan_u32 skip_space value_of
scan_u32-print_dec n rest h e =
    let same : value_of 0 (print_digits (suc n) n []) ≡ n =
      value_of-print_digits (suc n) n [] (omega arith) in
    subst (λ k. scan_u32 (print_digits (suc n) n [] ++ rest) ≡ some k) same
      (scan_u32-Digits (print_digits (suc n) n []) rest (print_digits-Digits (suc n) n [] tt)
        (omega (arith, print_digits-ne n n [])) e (omega arith))
