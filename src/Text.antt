-- ===== src/Text.antt =====
-- The text that the two protocols are written in: what `snprintf` prints for a number and what
-- `sscanf` reads for one, on lists of ASCII codes.
pub mod Decimal
pub mod Lines
pub mod Strings
pub mod Scanning
use cs4440proj3_final.Prelude.{
  ℕ, zero, suc, ◌+◌, ◌-◌, ◌*◌, ◌/◌, ◌%◌, ◌^◌, Bool, ◌&&◌, ◌||◌, Option, none, some, List, [], ◌∷◌,
  ◌++◌, Bytes, leb, ltb, ◌==◌, if◌then◌else◌,
}
use cs4440proj3_final.Prelude.Int.{ℤ, pos, negsuc}

abbrev pub newline : ℕ
newline = 10

abbrev pub space : ℕ
space = 32

abbrev pub is_digit : ℕ → Bool
is_digit c = leb b'0' c && leb c b'9'

-- isspace in the C locale
abbrev pub is_space : ℕ → Bool
is_space c = (c == 32) || (leb 9 c && leb c 13)

-- The digits of `n`, put in front of `acc`; one round for each digit.
print_digits : ℕ → ℕ → Bytes → Bytes
print_digits zero n acc = acc
print_digits (suc fuel) n acc =
    let digit : ℕ = b'0' + n % 10 in
    let more = print_digits fuel (n / 10) (digit ∷ acc) in if ltb n 10 then digit ∷ acc else more

-- "%u", and "%ld" of a value that is not negative
unfoldable pub print_dec : ℕ → Bytes
unfolding print_digits
print_dec n = print_digits (suc n) n []

pub skip_space : Bytes → Bytes
skip_space [] = []
skip_space (c ∷ s) = let rest = skip_space s in if is_space c then rest else c ∷ s

-- The value of the leading digits behind `acc`, and what follows them.
scan_digits : ℕ → Bytes → ℕ × Bytes
scan_digits acc [] = (acc, [])
scan_digits acc (c ∷ s) =
    let rest = scan_digits (acc * 10 + (c - b'0')) s in if is_digit c then rest else (acc, c ∷ s)

-- A number needs at least one digit.
scan_nat : Bytes → Option (ℕ × Bytes)
unfolding scan_digits
scan_nat [] = none
scan_nat (c ∷ s) = if is_digit c then some (scan_digits 0 (c ∷ s)) else none

-- `strtol` stops at the ends of the range of `long`.
abbrev pub long_max : ℕ
long_max = 2 ^ 63 - 1

abbrev clip_pos : ℕ → ℤ
clip_pos n = if leb n long_max then pos n else pos long_max

abbrev clip_neg : ℕ → ℤ
clip_neg zero = pos 0
clip_neg (suc n) = if leb n long_max then negsuc n else negsuc long_max

abbrev with_sign : (ℕ → ℤ) → Option (ℕ × Bytes) → Option (ℤ × Bytes)
with_sign f none = none
with_sign f (some (n, s)) = some (f n, s)

scan_signed : Bytes → Option (ℤ × Bytes)
unfolding scan_nat
scan_signed [] = none
scan_signed (c ∷ s) =
    if c == b'-'
    then with_sign clip_neg (scan_nat s)
    else if c == b'+'
    then with_sign clip_pos (scan_nat s)
    else with_sign clip_pos (scan_nat (c ∷ s))

-- "%ld"
unfoldable pub scan_long : Bytes → Option (ℤ × Bytes)
unfolding scan_signed skip_space
scan_long s = scan_signed (skip_space s)

-- What "%u" stores of a number: strtoul on 64 bits, cut to 32; a minus sign negates.
abbrev to_u32 : ℕ → ℕ
to_u32 n = (if ltb n (2 ^ 64) then n else 2 ^ 64 - 1) % 2 ^ 32

abbrev negated_u32 : ℕ → ℕ
negated_u32 n = (if ltb n (2 ^ 64) then 2 ^ 64 - n else 2 ^ 64 - 1) % 2 ^ 32

abbrev value : (ℕ → ℕ) → Option (ℕ × Bytes) → Option ℕ
value f none = none
value f (some (n, s)) = some (f n)

scan_unsigned : Bytes → Option ℕ
unfolding scan_nat
scan_unsigned [] = none
scan_unsigned (c ∷ s) =
    if c == b'-'
    then value negated_u32 (scan_nat s)
    else if c == b'+'
    then value to_u32 (scan_nat s)
    else value to_u32 (scan_nat (c ∷ s))

-- "%u"
unfoldable pub scan_u32 : Bytes → Option ℕ
unfolding scan_unsigned skip_space
scan_u32 s = scan_unsigned (skip_space s)

until_space : Bytes → Bytes × Bytes
until_space [] = ([], [])
until_space (c ∷ s) =
    let (word, rest) = until_space s in if is_space c then ([], c ∷ s) else (c ∷ word, rest)

-- "%s"; an empty word is a failure of sscanf
unfoldable pub scan_word : Bytes → Bytes × Bytes
unfolding until_space skip_space
scan_word s = until_space (skip_space s)

-- " %ld %ld ...", then the text behind
unfoldable pub words : List ℕ → Bytes → Bytes
words [] rest = rest
words (n ∷ ns) rest = space ∷ (print_dec n ++ words ns rest)

-- A command line of the disk protocol: the letter, the numbers, the newline.
unfoldable pub request : ℕ → List ℕ → Bytes
unfolding words
request cmd ns = cmd ∷ words ns (newline ∷ [])

-- what "%s" prints of an array, and what strlen counts of it
unfoldable pub c_string : Bytes → Bytes
c_string [] = []
c_string (c ∷ s) = let rest = c_string s in if c == 0 then [] else c ∷ rest
