-- ===== src/Text/Strings.antt =====
-- Byte strings without a NUL, which C takes as they are.
use cs4440proj3_final.Prelude.{
  ℕ, zero, suc, ◌/◌, ◌≡◌, refl, inl, inr, false, List, [], ◌∷◌, ◌++◌, Bytes, arith, All, Bool-cases,
  ltb, ◌==◌,
}
use cs4440proj3_final.Text.{c_string, print_digits, print_dec, words, request, newline}

-- No byte is the NUL.
abbrev pub NoNul : Bytes → Type 0
NoNul s = All (λ c. (c == 0) ≡ false) s

pub c_string-NoNul : (s : Bytes) → NoNul s → c_string s ≡ s
unfolding c_string
c_string-NoNul [] h = refl
c_string-NoNul (c ∷ s) h = ground (arith, c_string-NoNul s)

pub NoNul-append : (s t : Bytes) → NoNul s → NoNul t → NoNul (s ++ t)
NoNul-append [] t hs ht = ht
NoNul-append (c ∷ s) t hs ht = (hs.0, NoNul-append s t hs.1 ht)

pub NoNul-c_string : (s : Bytes) → NoNul (c_string s)
unfolding c_string
NoNul-c_string [] = tt
NoNul-c_string (c ∷ s) = elim (Bool-cases (c == 0)) [
  | inl nul ↦ rw nul tt
  | inr more ↦ rw more (more, NoNul-c_string s)
]

print_digits-NoNul : (fuel n : ℕ) (acc : Bytes) → NoNul acc → NoNul (print_digits fuel n acc)
unfolding print_digits
print_digits-NoNul zero n acc p = p
print_digits-NoNul (suc fuel) n acc p = elim (Bool-cases (ltb n 10)) [
  | inl small ↦ rw small (ground arith, p)
  | inr large ↦ rw large (print_digits-NoNul fuel (n / 10) _ (ground arith, p))
]

pub print_dec-NoNul : (n : ℕ) → NoNul (print_dec n)
unfolding print_dec
print_dec-NoNul n = print_digits-NoNul (suc n) n [] tt

words-NoNul : (ns : List ℕ) → NoNul (words ns (newline ∷ []))
unfolding words print_dec
words-NoNul [] = (refl, tt)
words-NoNul (n ∷ ns) =
    (refl, NoNul-append (print_dec n) _ (print_digits-NoNul (suc n) n [] tt) (words-NoNul ns))

pub request-NoNul : (cmd : ℕ) (ns : List ℕ) → (cmd == 0) ≡ false → NoNul (request cmd ns)
unfolding request
request-NoNul cmd ns h = (h, words-NoNul ns)
