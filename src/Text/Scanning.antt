-- ===== src/Text/Scanning.antt =====
-- What %s of sscanf reads of the words of a command line.
use cs4440proj3_final.Prelude.{
  ℕ, ◌<◌, ◌≡◌, refl, true, false, [], ◌∷◌, ◌++◌, Bytes, arith, All, length,
}
use cs4440proj3_final.Text.{space, is_space, skip_space, until_space, scan_word}
use cs4440proj3_final.Text.Lines.{Plain}

-- No byte is white space.
abbrev pub IsWord : Bytes → Type 0
IsWord s = All (λ c. is_space c ≡ false) s

pub IsWord-Plain : (s : Bytes) → IsWord s → Plain s
IsWord-Plain [] h = tt
IsWord-Plain (c ∷ s) h = (ground (arith, h.0), IsWord-Plain s h.1)

until_space-IsWord :
    (w : Bytes) (c : ℕ) (rest : Bytes)
    → IsWord w
    → is_space c ≡ true
    → until_space (w ++ (c ∷ rest)) ≡ (w, c ∷ rest)
unfolding until_space
until_space-IsWord [] c rest h e = rw e refl
until_space-IsWord (x ∷ w) c rest h e = rw (h.0, until_space-IsWord w c rest h.1 e) refl

-- "%s" reads a word behind a space, up to the white space behind the word.
pub scan_word-IsWord :
    (w : Bytes) (c : ℕ) (rest : Bytes)
    → IsWord w
    → 0 < length w
    → is_space c ≡ true
    → scan_word (space ∷ (w ++ (c ∷ rest))) ≡ (w, c ∷ rest)
unfolding scan_word skip_space
scan_word-IsWord [] c rest h ne e = absurd (omega arith)
scan_word-IsWord (x ∷ w) c rest h ne e = rw (h.0, until_space-IsWord (x ∷ w) c rest h e) refl

-- A letter is no white space.
pub skip_space-IsWord : (c : ℕ) (s : Bytes) → is_space c ≡ false → skip_space (c ∷ s) ≡ c ∷ s
unfolding skip_space
skip_space-IsWord c s h = rw h refl
